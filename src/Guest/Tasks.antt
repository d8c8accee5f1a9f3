-- ===== src/Guest/Tasks.antt =====
-- The classes of HolyCRT/KernelA.HH for what belongs to a task.
use templeos_loader.Prelude.{ℕ}
use templeos_loader.Guest.Layout.{
  Members, nil, member, assert_aligned, array, struct, u0, u8, boolean, u16, u32, i64, ptr, ◌▸◌,
}

abbrev pub str_len : ℕ
str_len = 144

abbrev pub colors_num : ℕ
colors_num = 16

abbrev pub c_except : Members
c_except =
    member "next" ptr
    ▸ member "last" ptr
    ▸ member "hndlr_catch" i64
    ▸ member "hndlr_untry" i64
    ▸ member "rsp" i64
    ▸ member "rbp" i64
    ▸ member "rflags" i64
    ▸ member "rsi" i64
    ▸ member "rdi" i64
    ▸ member "r10" i64
    ▸ member "r11" i64
    ▸ member "r12" i64
    ▸ member "r13" i64
    ▸ member "r14" i64
    ▸ member "r15" i64
    ▸ nil

abbrev pub c_fpu : Members
c_fpu = member "body" (array u8 512) ▸ nil

abbrev pub c_job : Members
c_job =
    member "next" ptr
    ▸ member "last" ptr
    ▸ member "ctrl" ptr
    ▸ member "job_code" i64
    ▸ member "flags" i64
    ▸ member "msg_code" i64
    ▸ member "addr" ptr
    ▸ member "fun_arg" ptr
    ▸ member "aux_str" ptr
    ▸ member "aux1" i64
    ▸ member "aux2" i64
    ▸ member "res" i64
    ▸ member "spawned_task" ptr
    ▸ member "master_task" ptr
    ▸ nil

abbrev pub c_job_ctrl : Members
c_job_ctrl =
    member "next_waiting" ptr
    ▸ member "last_waiting" ptr
    ▸ member "next_done" ptr
    ▸ member "last_done" ptr
    ▸ member "flags" i64
    ▸ nil

abbrev pub c_win_scroll : Members
c_win_scroll =
    member "min" i64
    ▸ member "pos" i64
    ▸ member "max" i64
    ▸ member "flags" u32
    ▸ member "color" u8
    ▸ member "pad" (array u8 3)
    ▸ nil

abbrev pub c_bgr48 : Members
c_bgr48 = member "b" u16 ▸ member "g" u16 ▸ member "r" u16 ▸ member "pad" u16 ▸ nil

abbrev pub c_task_settings : Members
c_task_settings =
    member "next" ptr
    ▸ member "cur_dir" ptr
    ▸ member "left" i64
    ▸ member "right" i64
    ▸ member "top" i64
    ▸ member "bottom" i64
    ▸ member "draw_it" ptr
    ▸ member "task_end_cb" ptr
    ▸ member "song_task" ptr
    ▸ member "animate_task" ptr
    ▸ member "scroll_x" i64
    ▸ member "scroll_y" i64
    ▸ member "scroll_z" i64
    ▸ member "palette" (array (struct c_bgr48) colors_num)
    ▸ member "win_inhibit" u32
    ▸ member "text_attr" u8
    ▸ member "title_src" u8
    ▸ member "border_attr" u8
    ▸ member "border_src" u8
    ▸ member "task_title" (array u8 str_len)
    ▸ member "border" boolean
    ▸ member "hide_cursor" boolean
    ▸ member "highlight_cursor" boolean
    ▸ member "scroll" boolean
    ▸ member "autocomplete" boolean
    ▸ member "pad" (array boolean 3)
    ▸ assert_aligned 3
    ▸ nil

abbrev pub c_task_stk : Members
c_task_stk =
    member "next_stk" ptr
    ▸ member "stk_size" i64
    ▸ member "stk_ptr" i64
    ▸ member "stk_base" u0
    ▸ nil

abbrev pub c_task_dying : Members
c_task_dying = member "next" ptr ▸ member "last" ptr ▸ member "wake_jiffy" i64 ▸ nil
