-- ===== src/Client/Channel/Keys.antt =====
-- Which calls share a connection.
use carrot_rpc.Prelude.{
  ◌≡◌, refl, ap, ap₂, subst, sym, Lacks, Lacks-middle, ◌∙◌, inl, inr, true, false, Option, none,
  some, [], ◌∷◌, ◌++◌, Bytes, bytes_eq, bytes_eq→eq, bytes_eq_refl, Bool-cases, if◌then◌else◌,
}
use carrot_rpc.Controller.{Controller}
use carrot_rpc.Client.Async.{Connection, Environment, new_connection}
use carrot_rpc.Client.Async.Calls.{Result, returned, threw, faulted, hangs}
use carrot_rpc.Client.Async.Handlers.{issue}
use carrot_rpc.Client.Channel.{key_of, Conns, find_conn, put_conn, leaves, call_method}

-- Calls share a connection exactly if they name the same host and the same service, if there is no colon in
-- the services; colons in the hosts are no obstacle.
pub key_of-injective :
    (h s h' s' : Bytes)
    → Lacks b':' s
    → Lacks b':' s'
    → key_of h s ≡ key_of h' s'
    → (h ≡ h') × (s ≡ s')
unfolding key_of
key_of-injective [] s [] s' l l' e = (refl, cc e)
key_of-injective [] s (b ∷ h') s' l l' e =
    let same : s ≡ h' ++ (b':' ∷ s') = cc e in
    absurd (Lacks-middle b':' h' s' (subst (Lacks b':') same l))
key_of-injective (b ∷ h) s [] s' l l' e =
    let same : s' ≡ h ++ (b':' ∷ s) = cc e in
    absurd (Lacks-middle b':' h s (subst (Lacks b':') same l'))
key_of-injective (b ∷ h) s (b' ∷ h') s' l l' e =
    let first : b ≡ b' = cc e in
    let (hosts, services) = key_of-injective h s h' s' l l' (cc e) in
    (ap₂ (λ b h. b ∷ h) first hosts, services)

module _ {Msg : Type 0} where
  pub find_conn-put_conn :
      (key k : Bytes) (d : Connection Msg) (conns : Conns Msg)
      → find_conn k (put_conn key d conns) ≡ (if bytes_eq key k then some d else find_conn k conns)
  unfolding find_conn put_conn
  find_conn-put_conn key k d [] = refl
  find_conn-put_conn key k d ((k', c) ∷ conns) = elim (Bool-cases (bytes_eq k' key)) [
    | inl y ↦
        let same : bytes_eq k' k ≡ bytes_eq key k =
          ap (λ key. bytes_eq key k) (bytes_eq→eq k' key y) in
        elim (Bool-cases (bytes_eq key k)) [
          | inl e ↦ rw (y, same, e, find_conn) refl
          | inr e ↦ rw (y, same, e, find_conn) refl
        ]
    | inr z ↦ elim (Bool-cases (bytes_eq k' k)) [
      | inr e ↦ rw (z, e, find_conn) (find_conn-put_conn key k d conns)
      | inl e ↦ rw (z, e, other key k k' z e, find_conn) refl
    ]
  ]
    where
      other :
          (key k k' : Bytes)
          → bytes_eq k' key ≡ false
          → bytes_eq k' k ≡ true
          → bytes_eq key k ≡ false
      other key k k' z e = elim (Bool-cases (bytes_eq key k)) [
        | inr d ↦ d
        | inl y ↦
            let same : k' ≡ key = bytes_eq→eq k' k e ∙ sym (bytes_eq→eq key k y) in
            cc (sym z ∙ ap (bytes_eq k') (sym same) ∙ bytes_eq_refl k')
      ]

  find_conn-leaves :
      (key k : Bytes) (r : Result Msg) (conns conns' : Conns Msg)
      → leaves key r conns ≡ some conns'
      → bytes_eq key k ≡ false
      → find_conn k conns' ≡ find_conn k conns
  find_conn-leaves key k (returned d) conns conns' e z =
      ap (find_conn k) (sym (cc e)) ∙ find_conn-put_conn key k d conns ∙ rw z refl
  find_conn-leaves key k (threw d what) conns conns' e z =
      ap (find_conn k) (sym (cc e)) ∙ find_conn-put_conn key k d conns ∙ rw z refl
  find_conn-leaves key k faulted conns conns' e z = cc
  find_conn-leaves key k hangs conns conns' e z = cc

  -- A call, whether or not it throws, leaves the connections to every other host and to every other service of its
  -- host as they are, if there is no colon in the service of the call and in the other service.
  pub call_method-Separate :
      (env : Environment Msg) (method : Bytes) (ctl : Controller) (request : Msg)
      (conns conns' : Conns Msg) (host service : Bytes)
      → call_method env method ctl request conns ≡ some conns'
      → Lacks b':' ctl.service
      → Lacks b':' service
      → ((ctl.host ≡ host) × (ctl.service ≡ service) → ⊥)
      → find_conn (key_of host service) conns' ≡ find_conn (key_of host service) conns
  unfolding call_method
  call_method-Separate env method ctl request conns conns' host service e l l' differs =
      go (find_conn key conns) e
    where
      key : Bytes
      key = key_of ctl.host ctl.service

      apart : bytes_eq key (key_of host service) ≡ false
      apart = elim (Bool-cases (bytes_eq key (key_of host service))) [
        | inr z ↦ z
        | inl y ↦ absurd (
            differs (key_of-injective ctl.host ctl.service host service l l' (bytes_eq→eq key _ y)))
      ]

      go :
          (o : Option (Connection Msg))
          → elim o [
            | none ↦ leaves key (issue env method ctl request new_connection) conns
            | some c ↦ leaves key (issue env method ctl request c) conns
          ]
            ≡ some conns'
          → find_conn (key_of host service) conns' ≡ find_conn (key_of host service) conns
      go none e =
          find_conn-leaves key _ (issue env method ctl request new_connection) conns conns' e apart
      go (some c) e = find_conn-leaves key _ (issue env method ctl request c) conns conns' e apart
