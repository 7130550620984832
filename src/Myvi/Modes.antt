-- ===== src/Myvi/Modes.antt =====
-- The modes of usr/myvi.c. What `save_file` does to the files is an argument.
use mini_operating_system.Prelude.{
  ℕ, zero, suc, ◌+◌, ◌-◌, not, ◌&&◌, ◌==◌, if◌then◌else◌, add32, sub32, update,
}
use mini_operating_system.Myvi.{
  Vi, column_len, less, insert_key, delete_key, page_location_last_line, page_location_next_line,
  cursor_prev_line, cursor_next_line, to_lower_case,
}
use mini_operating_system.Myvi.Flush.{screen_flush}

unfoldable pub blank_from : (rounds i : ℕ) → (ℕ → ℕ) → ℕ → ℕ
blank_from zero i f = f
blank_from (suc rounds) i f = blank_from rounds (i + 1) (update f i 32)

unfoldable pub begin_instruction : Vi → Vi
unfolding blank_from
begin_instruction v = record v {
  mode = 2;
  instruction = blank_from (column_len - 1) 1 (update v.instruction 0 58);
  inst_len = 1;
}

-- The switch of the command mode, but for 'i'
unfoldable pub command : (key : ℕ) → Vi → Vi
unfolding cursor_next_line cursor_prev_line delete_key begin_instruction
command key v =
    let c = v.cursor_location in
    if key == 106
    then cursor_next_line v
    else if key == 104
    then (if less 0 c && not (v.buffer (sub32 c 1) == 10)
        then record v { cursor_location = sub32 c 1 }
        else v)
    else if key == 107
    then cursor_prev_line v
    else if key == 108
    then (if less (add32 c 1) v.size && not (v.buffer c == 10)
        then record v { cursor_location = add32 c 1 }
        else v)
    else if key == 120
    then (if c == sub32 v.size 1 then v else delete_key c v)
    else if key == 58
    then begin_instruction v
    else v

-- The page follows the cursor.
unfoldable pub follow_cursor : Vi → Vi
unfolding page_location_last_line page_location_next_line
follow_cursor v =
    if less v.cursor_location v.page_location
    then page_location_last_line v
    else if less v.cursor_location v.page_end
    then v
    else page_location_next_line v

unfoldable pub do_command_mode : (key : ℕ) → Vi → Vi
unfolding command follow_cursor screen_flush
do_command_mode key v =
    if key == 105 then record v { mode = 1 } else screen_flush (follow_cursor (command key v))

-- Backspace
unfoldable pub erase_key : Vi → Vi
unfolding delete_key screen_flush page_location_last_line
erase_key v =
    let c = v.cursor_location in
    let e = if c == 0 then v else delete_key (sub32 c 1) v in
    let f = screen_flush (record e { cursor_location = sub32 c 1 }) in
    if less f.cursor_location f.page_location then page_location_last_line f else f

unfoldable pub type_key : (key : ℕ) → Vi → Vi
unfolding insert_key screen_flush page_location_next_line
type_key key v =
    let e = insert_key key v.cursor_location v in
    let f = screen_flush (record e { cursor_location = add32 v.cursor_location 1 }) in
    if less f.cursor_location f.page_end then f else page_location_next_line f

unfoldable pub do_insert_mode : (key : ℕ) → Vi → Vi
unfolding erase_key type_key screen_flush
do_insert_mode key v =
    if key == 27
    then record v { mode = 0 }
    else screen_flush (if key == 8 then erase_key v else type_key key v)

module _ {Files : Type 0} (save_file : Vi → Files → Files) where
  -- The instructions ":q!" and ":wq"
  unfoldable pub execute : Vi × Files → Vi × Files
  execute (v, files) =
      let is_inst = v.inst_len == 3 && v.instruction 0 == 58 in
      let left = record v { err = 1 } in
      if is_inst && v.instruction 1 == 113 && v.instruction 2 == 33
      then (left, files)
      else if is_inst && v.instruction 1 == 119 && v.instruction 2 == 113
      then (left, save_file v files)
      else (v, files)

  unfoldable pub do_last_line_mode : (key : ℕ) → Vi × Files → Vi × Files
  unfolding execute screen_flush
  do_last_line_mode key (v, files) =
      let (n, saved) = execute (v, files) in
      if key == 27
      then (screen_flush (record v { inst_len = 0; mode = 0 }), files)
      else if key == 8
      then (
        screen_flush (if less 0 v.inst_len then record v { inst_len = sub32 v.inst_len 1 } else v),
        files,
      )
      else if key == 10
      then (screen_flush n, saved)
      else (
        screen_flush (record v {
          instruction = update v.instruction v.inst_len (to_lower_case key);
          inst_len = add32 v.inst_len 1;
        }),
        files,
      )
