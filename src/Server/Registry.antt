-- ===== src/Server/Registry.antt =====
-- The services of a server: src/server/carrot_server.cpp, the same map and function in
-- src/server/carrot_async_server.cpp, and the lookups by which a handler finds the method of a call.
-- std::map is an association list. A service is the user's code, generated and written by hand: what the
-- servers call of it are the fields of `Service`.
pub mod Register
pub mod Routing
mod Examples
use carrot_rpc.Prelude.{
  ℕ, suc, ◌+◌, Bool, true, false, Option, none, some, List, [], ◌∷◌, ◌++◌, Bytes, bytes_eq, take,
  drop, ◌==◌, if◌then◌else◌,
}
use carrot_rpc.Controller.{Controller}

-- How CallMethod ends: it returns, or an exception with this what() leaves it. The response and the
-- controller are changed in place in both cases.
pub data Called (Msg : Type 0) : Type 0 where
  returned : Msg → Controller → Called Msg
  threw : Bytes → Msg → Controller → Called Msg

-- A method is known by its number in the descriptor of the service.
pub record Service (Msg : Type 0) : Type 0 where
  -- GetDescriptor()->name() and FindMethodByName
  pub name : Bytes
  pub find_method : Bytes → Option ℕ
  -- ParseFromArray of a new request message of the method
  pub parse_request : ℕ → Bytes → Option Msg
  -- The same with a uint32_t that is negative as the int size, and the memory at the array
  pub parse_negative : ℕ → ℕ → Bytes → Option Msg
  -- CallMethod with a new response message
  pub call_method : ℕ → Controller → Msg → ℕ → Called Msg

pub record CarrotService (Msg : Type 0) : Type 0 where
  pub s : Service Msg
  pub c : ℕ

abbrev pub Services : Type 0 → Type 0
Services Msg = List (Bytes × CarrotService Msg)

module _ {Msg : Type 0} where
  unfoldable pub find : Bytes → Services Msg → Option (CarrotService Msg)
  find key [] = none
  find key ((name, cs) ∷ services) = if bytes_eq name key then some cs else find key services

  -- CarrotServer::RegisterService
  unfoldable pub register_service : Services Msg → Service Msg → ℕ → Bool × Services Msg
  unfolding find
  register_service services service closure = elim (find service.name services) [
    | some cs ↦ (false, services)
    | none ↦ (true, (service.name, record { s = service; c = closure }) ∷ services)
  ]

-- std::string::find_first_of of one character.
unfoldable pub find_first_of : ℕ → Bytes → Option ℕ
find_first_of ch [] = none
find_first_of ch (b ∷ bs) =
    if b == ch
    then some 0
    else elim (find_first_of ch bs) [ none ↦ none | some pos ↦ some (suc pos) ]

abbrev pub dot : ℕ
dot = b'.'

-- Where the lookups of a handler end.
pub data Route (Msg : Type 0) : Type 0 where
  invalid_identity service_not_found method_not_found : Route Msg
  found : CarrotService Msg → ℕ → Route Msg

unfoldable pub resolve : {Msg : Type 0} → Services Msg → Bytes → Route Msg
resolve services method_identity = elim (find_first_of dot method_identity) [
  | none ↦ invalid_identity
  | some pos ↦
      let service_name = take pos method_identity in
      let method_name = drop (suc pos) method_identity in
      elim (find service_name services) [
        | none ↦ service_not_found
        | some cs ↦ elim (cs.s.find_method method_name) [
          | none ↦ method_not_found
          | some md ↦ found cs md
        ]
      ]
]

-- What the channels put on the wire for a method: `service()->name() + "." + name()`.
unfoldable pub method_identity_of : Bytes → Bytes → Bytes
method_identity_of service method = service ++ (dot ∷ method)
