-- ===== src/Giop/Tests/Fragments.antt =====
-- src/orb/GIOP/giop-recv-buffer.c at messages in fragments.
use orbit.Base.{map, ◌≡◌, refl, true, false, none, [], ◌∷◌, ◌++◌, arith, replicate}
use orbit.Giop.Wire.{little}
use orbit.Giop.Message.{giop_1_1, RecvBuffer}
use orbit.Giop.Reader.{load_u32, done, fault}
use orbit.Giop.Fragments.{
  message_id, fragment_id, handle_fragmented, connection_get_frag, find_frag, get_request_id,
  concat_frags, frag_size,
}
use orbit.Giop.Fragments.Reassembly.{
  Part, cut, IsPart, Begins, Whole, deliver, deliver-Whole, handle_fragmented_headless,
}
use orbit.Giop.Fragments.Join.{concat_frags_overrun}
use orbit.Giop.Tests.Messages.{part, plenty}

abbrev first_part : RecvBuffer
first_part = part 1 3 4 16 16 (replicate 12 0 ++ 1 ∷ 2 ∷ 3 ∷ 4 ∷ [])

abbrev middle_part : RecvBuffer
middle_part = part 7 3 6 16 18 (replicate 16 0 ++ 5 ∷ 6 ∷ [])

abbrev last_part : RecvBuffer
last_part = part 7 1 5 16 17 (replicate 16 0 ++ 7 ∷ [])

abbrev past_part : RecvBuffer
past_part = part 7 1 5 24 17 (replicate 16 0 ++ 7 ∷ [])

abbrev first_of_two : RecvBuffer
first_of_two = part 1 3 6 16 16 (replicate 12 0 ++ 1 ∷ 2 ∷ 3 ∷ 4 ∷ [])

last_size : frag_size last_part ≡ 1
unfolding frag_size
last_size = refl

middle_size : frag_size middle_part ≡ 2
unfolding frag_size
middle_size = refl

concat_frags_overrun_example : concat_frags plenty first_part (past_part ∷ []) ≡ fault
concat_frags_overrun_example =
    concat_frags_overrun plenty first_part past_part [] (omega arith) (omega arith) (omega arith)
      (λ n. refl)

-- The same reply, call by call: the fragments still have their ids in front.
abbrev middle : Part
middle = (part 7 3 6 12 18 (replicate 16 0 ++ 5 ∷ 6 ∷ []), 16)

abbrev last : Part
last = (part 7 1 5 12 17 (replicate 16 0 ++ 7 ∷ []), 16)

first_part-Begins : Begins little plenty 256 false first_part
unfolding message_id
first_part-Begins = record {
  behind_header = omega arith;
  owned = refl;
  filled = refl;
  size = refl;
  follow = refl;
  own_id = refl;
  whole_type = λ h. omega arith;
}

middle-IsPart : IsPart little 256 (get_request_id first_part.msg) true middle.0 middle.1
unfolding message_id fragment_id load_u32 get_request_id
middle-IsPart = record {
  same_id = refl;
  in_place = (omega arith, omega arith, omega arith);
  follow = refl;
  small = omega arith;
}

last-IsPart : IsPart little 256 (get_request_id first_part.msg) false last.0 last.1
unfolding message_id fragment_id load_u32 get_request_id
last-IsPart = record {
  same_id = refl;
  in_place = (omega arith, omega arith, omega arith);
  follow = refl;
  small = omega arith;
}

nothing_kept : connection_get_frag [] (get_request_id first_part.msg) false ≡ none
unfolding connection_get_frag find_frag
nothing_kept = refl

deliver-Whole_example :
    Whole little plenty 256 false first_part
      (map cut (middle ∷ []))
      (cut last)
      []
      (deliver little plenty 256 false (first_part ∷ middle.0 ∷ []) last.0 [])
deliver-Whole_example =
    deliver-Whole little plenty 256 false first_part (middle ∷ []) last [] first_part-Begins
      nothing_kept (middle-IsPart, tt) last-IsPart refl (omega (arith, middle_size, last_size))
      (λ n. refl)

abbrev headless : RecvBuffer
headless = record (part 7 3 4 12 16 (replicate 16 0)) { giop_version = giop_1_1 }

handle_fragmented_headless_example :
    (handle_fragmented little plenty 256 false headless []
      ≡ done (record { error = false; buf = headless; frags = (headless ∷ []) ∷ [] }))
    × (handle_fragmented little plenty 256 false headless ((headless ∷ []) ∷ []) ≡ fault)
handle_fragmented_headless_example =
    handle_fragmented_headless little plenty 256 false headless headless refl refl refl refl refl
      refl
