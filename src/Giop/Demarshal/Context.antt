-- ===== src/Giop/Demarshal/Context.antt =====
-- `ORBit_demarshal_value` (src/orb/orb-core/corba-any.c) at `TC_IOP_ServiceContextList`, a sequence
-- of structs of an unsigned long and a sequence of octets.
use orbit.Base.{ℕ, zero, suc, List, [], ◌∷◌, ◌==◌, if◌then◌else◌}
use orbit.Giop.Message.{ServiceContext}
use orbit.Giop.Reader.{Reader, ◌>>=◌, ◌>>◌, pure, align_cur, need, load_u32, copy_octets}

-- The case `CORBA_tk_sequence` for octets: no bytes are copied for a length of 0.
unfoldable pub octet_sequence : Reader (List ℕ)
octet_sequence = do
  align_cur 4
  need 4
  len ← load_u32
  if len == 0 then pure [] else copy_octets len

-- The struct: the id (`CORBA_tk_ulong`), then the data.
unfoldable pub service_context : Reader ServiceContext
service_context = do
  align_cur 4
  need 4
  id ← load_u32
  octets ← octet_sequence
  pure (record { context_id = id; context_data = octets })

-- The loop of `CORBA_tk_sequence` over its elements.
unfoldable pub service_contexts : ℕ → Reader (List ServiceContext)
service_contexts zero = pure []
service_contexts (suc n) = do c ← service_context; cs ← service_contexts n; pure (c ∷ cs)

-- `giop_IOP_ServiceContextList_demarshal`
unfoldable pub service_context_list : Reader (List ServiceContext)
service_context_list = do align_cur 4; need 4; len ← load_u32; service_contexts len
