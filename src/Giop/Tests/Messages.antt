-- ===== src/Giop/Tests/Messages.antt =====
-- Messages for the tests of src/orb/GIOP.
use orbit.Base.{ℕ, Bool, true, some, List, [], ◌∷◌}
use orbit.Giop.Message.{giop_1_2, MsgHeader, blank, RecvBuffer, ready}

-- A GIOP 1.2 fragment of a reply of 20 bytes, of which the decoder has taken the first 4.
abbrev pub fragment_header : ℕ → ℕ → ℕ → MsgHeader
fragment_header type flags size = record {
  magic = b'G' ∷ b'I' ∷ b'O' ∷ b'P' ∷ [];
  major = 1;
  minor = 2;
  flags = flags;
  message_type = type;
  message_size = size;
}

abbrev pub part : ℕ → ℕ → ℕ → ℕ → ℕ → List ℕ → RecvBuffer
part type flags size cur end body = record {
  header = fragment_header type flags size;
  msg = blank;
  raw = [];
  body = body;
  cur = cur;
  end = end;
  connection = some 1;
  state = ready;
  giop_version = giop_1_2;
  left_to_read = 0;
  free_body = true;
}

abbrev pub plenty : ℕ → Bool
plenty n = true
