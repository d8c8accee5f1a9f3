-- ===== src/Guest/Task.antt =====
-- The classes of HolyCRT/KernelA.HH for a task.
use templeos_loader.Prelude.{ℕ, none, some, str_eq}
use templeos_loader.Guest.Layout.{
  Members, nil, member, assert_aligned, assert_offset, array, struct, u8, boolean, u16, u32, i64,
  f64, ptr, ◌▸◌, find_place, places, size,
}
use templeos_loader.Guest.Tasks.{c_job_ctrl, c_win_scroll, c_task_dying, str_len}

abbrev pub task_name_len : ℕ
task_name_len = 32

abbrev pub task_except_callers : ℕ
task_except_callers = 8

-- `offset(CTaskDying.wake_jiffy)`
unfoldable pub wake_jiffy_at : ℕ
unfolding find_place places size str_eq
wake_jiffy_at = elim (find_place "wake_jiffy" (places 0 c_task_dying)) [ none ↦ 0 | some at ↦ at ]

abbrev pub c_task : Members
c_task =
    member "addr" ptr
    ▸ member "task_signature" u32
    ▸ member "win_inhibit" u32
    ▸ assert_offset wake_jiffy_at
    ▸ member "wake_jiffy" i64
    ▸ member "task_flags" u32
    ▸ member "display_flags" u32
    ▸ member "code_heap" ptr
    ▸ member "data_heap" ptr
    ▸ member "put_doc" ptr
    ▸ member "display_doc" ptr
    ▸ member "border_doc" ptr
    ▸ member "win_left" i64
    ▸ member "win_right" i64
    ▸ member "win_top" i64
    ▸ member "win_bottom" i64
    ▸ member "cur_dv" ptr
    ▸ member "cur_dir" ptr
    ▸ member "parent_task" ptr
    ▸ member "next_task" ptr
    ▸ member "last_task" ptr
    ▸ member "next_input_filter_task" ptr
    ▸ member "last_input_filter_task" ptr
    ▸ member "next_sibling_task" ptr
    ▸ member "last_sibling_task" ptr
    ▸ member "next_child_task" ptr
    ▸ member "last_child_task" ptr
    ▸ member "win_width" i64
    ▸ member "win_height" i64
    ▸ member "pix_left" i64
    ▸ member "pix_right" i64
    ▸ member "pix_width" i64
    ▸ member "pix_top" i64
    ▸ member "pix_bottom" i64
    ▸ member "pix_height" i64
    ▸ member "scroll_x" i64
    ▸ member "scroll_y" i64
    ▸ member "scroll_z" i64
    ▸ member "rip" i64
    ▸ member "rflags" i64
    ▸ member "rsp" i64
    ▸ member "rsi" i64
    ▸ member "rax" i64
    ▸ member "rcx" i64
    ▸ member "rdx" i64
    ▸ member "rbx" i64
    ▸ member "rbp" i64
    ▸ member "rdi" i64
    ▸ member "r8" i64
    ▸ member "r9" i64
    ▸ member "r10" i64
    ▸ member "r11" i64
    ▸ member "r12" i64
    ▸ member "r13" i64
    ▸ member "r14" i64
    ▸ member "r15" i64
    ▸ member "gs" ptr
    ▸ member "fpu_mmx" ptr
    ▸ member "swap_cnter" i64
    ▸ member "draw_it" ptr
    ▸ member "task_title" (array u8 str_len)
    ▸ member "task_name" (array u8 task_name_len)
    ▸ member "wallpaper_data" (array u8 str_len)
    ▸ member "title_src" u8
    ▸ member "border_src" u8
    ▸ member "text_attr" u8
    ▸ member "border_attr" u8
    ▸ member "win_z_num" u16
    ▸ member "pad" u16
    ▸ member "stk" ptr
    ▸ member "next_except" ptr
    ▸ member "last_except" ptr
    ▸ member "except_rbp" i64
    ▸ member "except_ch" i64
    ▸ member "except_callers" (array ptr task_except_callers)
    ▸ member "catch_except" boolean
    ▸ member "new_answer" boolean
    ▸ member "answer_type" u8
    ▸ member "pad" (array u8 5)
    ▸ member "answer" i64
    ▸ member "answer_time" f64
    ▸ member "bpt_lst" ptr
    ▸ member "next_ctrl" ptr
    ▸ member "last_ctrl" ptr
    ▸ member "cur_menu" ptr
    ▸ member "next_settings" ptr
    ▸ member "next_ode" ptr
    ▸ member "last_ode" ptr
    ▸ member "last_ode_time" f64
    ▸ member "hash_table" ptr
    ▸ member "srv_ctrl" (struct c_job_ctrl)
    ▸ member "next_cc" ptr
    ▸ member "last_cc" ptr
    ▸ member "last_fun" ptr
    ▸ member "task_end_cb" ptr
    ▸ member "song_task" ptr
    ▸ member "animate_task" ptr
    ▸ member "rand_seed" i64
    ▸ member "task_num" i64
    ▸ member "fault_num" i64
    ▸ member "fault_err_code" i64
    ▸ member "popup_task" ptr
    ▸ member "dbg_task" ptr
    ▸ member "horz_scroll" (struct c_win_scroll)
    ▸ member "vert_scroll" (struct c_win_scroll)
    ▸ member "user_data" i64
    ▸ assert_aligned 3
    ▸ nil
