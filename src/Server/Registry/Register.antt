-- ===== src/Server/Registry/Register.antt =====
-- Registration.
use carrot_rpc.Prelude.{
  ℕ, ◌≡◌, ◌≢◌, ◌⊎◌, true, false, none, some, Bytes, bytes_eq, bytes_eq→eq, if◌then◌else◌,
  Option-cases, Bool-cases, inl, inr,
}
use carrot_rpc.Server.Registry.{Service, Services, find, register_service}

-- What a server finds under a name after a registration: what it found before, if there was something; else
-- the new service, if the name is its own. So a name that is taken keeps its service, and no other name is
-- touched.
pub find-register_service :
    {Msg : Type 0} (services : Services Msg) (service : Service Msg) (closure : ℕ) (key : Bytes)
    → find key (register_service services service closure).1 ≡ elim (find key services) [
      | some cs ↦ some cs
      | none ↦
          if bytes_eq service.name key then some (record { s = service; c = closure }) else none
    ]
unfolding register_service find
find-register_service services service closure key =
    elim (Option-cases (find service.name services)) [
      | inl free ↦
          rw (free, register_service)
            (elim (Bool-cases (bytes_eq service.name key)) [
              | inl same ↦
                  let absent : find key services ≡ none =
                    rw (bytes_eq→eq service.name key same) at free in
                  rw (same, absent, same)
              | inr other ↦ rw other (elim (Option-cases (find key services)) [
                | inl e ↦ rw (e, other)
                | inr (cs, e) ↦ rw e
              ])
            ])
      | inr (cs, taken) ↦
          rw (taken, register_service)
            (elim (Option-cases (find key services)) [
              | inr (cs, e) ↦ rw e
              | inl e ↦ elim (Bool-cases (bytes_eq service.name key)) [
                | inl same ↦ cc (e, rw (bytes_eq→eq service.name key same) at taken)
                | inr other ↦ rw (e, other)
              ]
            ])
    ]

-- RegisterService returns true if the name was free, and false, with the map as it was, if it was taken.
pub register_service_answers :
    {Msg : Type 0} (services : Services Msg) (service : Service Msg) (closure : ℕ)
    → (find service.name services ≡ none) × ((register_service services service closure).0 ≡ true)
      ⊎ (find service.name services ≢ none)
        × (register_service services service closure ≡ (false, services))
unfolding register_service
register_service_answers services service closure =
    elim (Option-cases (find service.name services)) [
      | inl e ↦ inl (e, rw (e, register_service))
      | inr (cs, e) ↦ inr ((λ n. cc), rw (e, register_service))
    ]
