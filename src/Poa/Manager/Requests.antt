-- ===== src/Poa/Manager/Requests.antt =====
-- src/orb/poa/poa.c and poa-manager.c: what becomes of the requests that were held.
use orbit.Poa.Adapter.{Poa}
