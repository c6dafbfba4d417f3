-- ===== src/Server/Registry/Routing.antt =====
-- Routing.
use carrot_rpc.Prelude.{
  ℕ, suc, ◌≡◌, refl, some, ◌∷◌, [], ◌++◌, Bytes, arith, drop, length, take-append,
}
pub use carrot_rpc.Prelude.{Lacks}
use carrot_rpc.Server.Registry.{
  CarrotService, Services, found, find, find_first_of, resolve, method_identity_of, dot,
}

find_first_of-append :
    (ch : ℕ) (s rest : Bytes) → Lacks ch s → find_first_of ch (s ++ (ch ∷ rest)) ≡ some (length s)
unfolding find_first_of
find_first_of-append ch [] rest h = ground arith
find_first_of-append ch (b ∷ bs) rest h = ground (arith, h.0, find_first_of-append ch bs rest h.1)

drop-suc-append : (ch : ℕ) (s rest : Bytes) → drop (suc (length s)) (s ++ (ch ∷ rest)) ≡ rest
drop-suc-append ch [] rest = refl
drop-suc-append ch (b ∷ bs) rest = drop-suc-append ch bs rest

-- The identity that a channel sends for a method leads the server to the service that is registered under the
-- service's name and to the method that this service finds by the method's name, if there is no dot in the
-- name of the service; a dot in the name of the method is no obstacle.
pub resolve-method_identity_of :
    {Msg : Type 0} (services : Services Msg) (service method : Bytes) (cs : CarrotService Msg)
    (md : ℕ)
    → Lacks dot service
    → find service services ≡ some cs
    → cs.s.find_method method ≡ some md
    → resolve services (method_identity_of service method) ≡ found cs md
unfolding resolve method_identity_of
resolve-method_identity_of services service method cs md h f g = rw (
  resolve,
  find_first_of-append dot service method h,
  take-append service (dot ∷ method),
  f,
  drop-suc-append dot service method,
  g,
)
