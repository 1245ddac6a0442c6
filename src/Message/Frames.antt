-- ===== src/Message/Frames.antt =====
-- The calls in the report on a process.
use sisop_2012_2c.Shared.{refl, ◌+◌, ◌%◌, ◌<◌, ◌≡◌, List, [], ◌∷◌, length, arith, lt→ltb, ge→ltb}
use sisop_2012_2c.Shared.Outcome.{ok, fault}
use sisop_2012_2c.Process.{Frame}
use sisop_2012_2c.Message.{frame_text, stack_msg_loop, stack_structure_msg}

-- With no call or one call that is not finished the report has its line. With more of them, whatever
-- they are, the second memcpy takes the size of both lines out of a string that holds one of them.
pub stack_structure_msg-overreads :
    (f g : Frame) (stack : List Frame)
    → length (frame_text f) + length (frame_text g) + 2 < 65536
    → (stack_structure_msg [] ≡ ok [])
      × (stack_structure_msg (f ∷ []) ≡ ok (frame_text f))
      × (stack_structure_msg (f ∷ g ∷ stack) ≡ fault)
unfolding stack_structure_msg stack_msg_loop
stack_structure_msg-overreads f g stack h = (
  refl,
  rw (ge→ltb (length (frame_text f) + 1) ((0 + (length (frame_text f) + 1)) % 65536) (omega arith)),
  rw (ge→ltb (length (frame_text f) + 1) ((0 + (length (frame_text f) + 1)) % 65536) (omega arith))
      (rw (
        lt→ltb (length (frame_text g) + 1)
          (((0 + (length (frame_text f) + 1)) % 65536 + (length (frame_text g) + 1)) % 65536)
          (omega arith))),
)
