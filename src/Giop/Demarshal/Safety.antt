-- ===== src/Giop/Demarshal/Safety.antt =====
-- The decoders of src/orb/GIOP/giop-recv-buffer.c stay inside the message that they decode.
use orbit.Base.{ℕ, zero, suc, ◌+◌, ◌≤◌, arith, length}
use orbit.Giop.Message.{
  GiopVersion, giop_1_0, giop_1_1, giop_1_2, OctetSeq, TargetAddress, key_addr, unread, Msg,
  request_1_1, request_1_2, locate_request_1_1, locate_request_1_2,
}
use orbit.Giop.Reader.{
  Outcome, done, broken, fault, Wire, Reader, load_u32, load_u16, point_octets, copy_octets,
}
use orbit.Giop.Demarshal.Messages.{
  demarshal_locate_reply_1_1, demarshal_target_address, demarshal_request_1_1,
  demarshal_locate_request_1_1, demarshal_key_addr, demarshal_address_case, demarshal_request_1_2,
  demarshal_reply_1_1, demarshal_reply_1_2, demarshal_cancel, demarshal_locate_request_1_2,
  recv_buffer_demarshal, by_version,
}
use orbit.Giop.Demarshal.Context.{
  octet_sequence, service_context, service_contexts, service_context_list,
}

-- A step does not fault, and where it succeeds `P` holds of its result.
abbrev pub Within : {A : Type 0} → (A → ℕ → Type 0) → Outcome (A × ℕ) → Type 0
Within P (done (a, c)) = P a c
Within P broken = Unit
Within P fault = ⊥

pub outcome-Within :
    {A B : Type 0} (P : A → ℕ → Type 0) (Q : B → ℕ → Type 0) (r : Outcome (A × ℕ))
    (f : A → ℕ → Outcome (B × ℕ))
    → Within P r
    → ((a : A) (c : ℕ) → P a c → Within Q (f a c))
    → Within Q (elim r [ done (a, c') ↦ f a c' | broken ↦ broken | fault ↦ fault ])
outcome-Within P Q (done (a, c)) f p k = k a c p
outcome-Within P Q broken f p k = tt
outcome-Within P Q fault f p k = p

abbrev pub UpTo : {A : Type 0} → ℕ → A → ℕ → Type 0
UpTo e a c = c ≤ e

abbrev InBody : ℕ → OctetSeq → Type 0
InBody e s = s.buffer + s.len ≤ e

abbrev AddressInBody : ℕ → TargetAddress → Type 0
AddressInBody e (key_addr s) = InBody e s
AddressInBody e (unread d) = Unit

-- Every pointer that a decoded message holds points at bytes of the body.
abbrev pub MsgInBody : ℕ → Msg → Type 0
MsgInBody e (request_1_1 r) =
    InBody e r.object_key × InBody e r.operation × InBody e r.requesting_principal
MsgInBody e (request_1_2 r) = AddressInBody e r.target × InBody e r.operation
MsgInBody e (locate_request_1_1 r) = InBody e r.object_key
MsgInBody e (locate_request_1_2 r) = AddressInBody e r.target
MsgInBody e _ = Unit

abbrev pub Decoded : ℕ → Msg → ℕ → Type 0
Decoded e m c = MsgInBody e m × (c ≤ e + 7)

abbrev Addressed : ℕ → TargetAddress → ℕ → Type 0
Addressed e a c = AddressInBody e a × (c ≤ e)

module _ (w : Wire) (h : w.end ≤ length w.mem) where
  octet_sequence-Within : (c : ℕ) → Within (UpTo w.end) (octet_sequence w c)
  unfolding octet_sequence load_u32 copy_octets
  octet_sequence-Within c = ground arith

  service_context-Within : (c : ℕ) → Within (UpTo w.end) (service_context w c)
  unfolding service_context load_u32
  service_context-Within c = grind (arith, octet_sequence-Within)

  service_contexts-Within : (n c : ℕ) → c ≤ w.end → Within (UpTo w.end) (service_contexts n w c)
  unfolding service_contexts
  service_contexts-Within zero c hc = hc
  service_contexts-Within (suc n) c hc =
      outcome-Within (UpTo w.end) (UpTo w.end) (service_context w c) _ (service_context-Within c)
        (λ a c1 p.
          outcome-Within (UpTo w.end) (UpTo w.end) (service_contexts n w c1) _
            (service_contexts-Within n c1 p) (λ b c2 q. q))

  service_context_list-Within : (c : ℕ) → Within (UpTo w.end) (service_context_list w c)
  unfolding service_context_list load_u32
  service_context_list-Within c = grind (arith, service_contexts-Within)

  target_address-Within : (c : ℕ) → Within (Addressed w.end) (demarshal_target_address w c)
  unfolding demarshal_target_address demarshal_address_case demarshal_key_addr load_u16 load_u32
      point_octets
  target_address-Within c = ground arith

  request_1_1-Within : (c : ℕ) → Within (Decoded w.end) (demarshal_request_1_1 w c)
  unfolding demarshal_request_1_1 load_u32 point_octets
  request_1_1-Within c =
      outcome-Within (UpTo w.end) (Decoded w.end) (service_context_list w c) _
        (service_context_list-Within c) (λ contexts c1 p. ground arith)

  request_1_2-Within : (c : ℕ) → Within (Decoded w.end) (demarshal_request_1_2 w c)
  unfolding demarshal_request_1_2 load_u32 point_octets
  request_1_2-Within c = grind (arith, target_address-Within, service_context_list-Within)

  reply_1_1-Within : (c : ℕ) → Within (Decoded w.end) (demarshal_reply_1_1 w c)
  unfolding demarshal_reply_1_1 load_u32
  reply_1_1-Within c =
      outcome-Within (UpTo w.end) (Decoded w.end) (service_context_list w c) _
        (service_context_list-Within c) (λ contexts c1 p. ground arith)

  reply_1_2-Within : (c : ℕ) → Within (Decoded w.end) (demarshal_reply_1_2 w c)
  unfolding demarshal_reply_1_2 load_u32
  reply_1_2-Within c = grind (arith, service_context_list-Within)

  cancel-Within : (c : ℕ) → Within (Decoded w.end) (demarshal_cancel w c)
  unfolding demarshal_cancel load_u32
  cancel-Within c = ground arith

  locate_request_1_1-Within : (c : ℕ) → Within (Decoded w.end) (demarshal_locate_request_1_1 w c)
  unfolding demarshal_locate_request_1_1 load_u32 point_octets
  locate_request_1_1-Within c = ground arith

  locate_request_1_2-Within : (c : ℕ) → Within (Decoded w.end) (demarshal_locate_request_1_2 w c)
  unfolding demarshal_locate_request_1_2 load_u32
  locate_request_1_2-Within c = grind (arith, target_address-Within)

  locate_reply-Within : (c : ℕ) → Within (Decoded w.end) (demarshal_locate_reply_1_1 w c)
  unfolding demarshal_locate_reply_1_1 load_u32
  locate_reply-Within c = ground arith

  by_version-Within :
      (v : GiopVersion) (old new : Reader Msg) (c : ℕ)
      → Within (Decoded w.end) (old w c)
      → Within (Decoded w.end) (new w c)
      → Within (Decoded w.end) (by_version v old new w c)
  by_version-Within giop_1_0 old new c p q = p
  by_version-Within giop_1_1 old new c p q = p
  by_version-Within giop_1_2 old new c p q = q

  -- Where `end` lies in the memory of the body, the decoder of any message type and version,
  -- started at any offset up to 7 bytes past `end`, never loads a byte outside that memory; when
  -- it accepts, every pointer it has stored spans bytes up to `end`, and `cur` is at most 7 bytes
  -- past `end`.
  pub recv_buffer_demarshal-Within :
      (type : ℕ) (version : GiopVersion) (c : ℕ)
      → c ≤ w.end + 7
      → Within (Decoded w.end) (recv_buffer_demarshal type version w c)
  unfolding recv_buffer_demarshal
  recv_buffer_demarshal-Within type version c hc =
      let a =
        by_version-Within version demarshal_request_1_1 demarshal_request_1_2 c
          (request_1_1-Within c) (request_1_2-Within c) in
      let b =
        by_version-Within version demarshal_reply_1_1 demarshal_reply_1_2 c (reply_1_1-Within c)
          (reply_1_2-Within c) in
      let d =
        by_version-Within version demarshal_locate_request_1_1 demarshal_locate_request_1_2 c
          (locate_request_1_1-Within c) (locate_request_1_2-Within c) in
      ground (arith, a, b, d, cancel-Within c, locate_reply-Within c)
