-- ===== src/Protob/Request/Merge.antt =====
-- Clearing, merging and copying a Request.
use mathlib.Core.List.{append_assoc, append-nil}
use carrot_rpc.Prelude.{ℕ, ◌≡◌, arith, Bytes}
use carrot_rpc.Protob.Request.{
  Request, new_request, set_id, set_method_identity, clear_id, clear_method_identity, clear,
  merge_from, copy_from, IsTidy,
}

clear-IsTidy : (m : Request) → IsTidy m → IsTidy (clear m)
unfolding clear
clear-IsTidy m t = ground arith

merge_from-IsTidy : (m from : Request) → IsTidy m → IsTidy from → IsTidy (merge_from m from)
unfolding merge_from
merge_from-IsTidy m from t u = ground arith

-- Every operation that changes a Request leaves an unset field at its default.
pub operations-IsTidy :
    (m other : Request) (value : ℕ) (s : Bytes)
    → IsTidy m
    → IsTidy other
    → IsTidy (set_id m value)
      × IsTidy (set_method_identity m s)
      × IsTidy (clear_id m)
      × IsTidy (clear_method_identity m)
      × IsTidy (clear m)
      × IsTidy (merge_from m other)
      × IsTidy (copy_from m other)
unfolding clear_id clear_method_identity copy_from
operations-IsTidy m other value s t u = (
  ground arith,
  ground arith,
  ground arith,
  ground arith,
  clear-IsTidy m t,
  merge_from-IsTidy m other t u,
  merge_from-IsTidy (clear m) other (clear-IsTidy m t) u,
)

-- On a Request whose unset fields hold their defaults, Clear gives the message of the constructor.
pub clear_lem : (m : Request) → IsTidy m → clear m ≡ new_request
unfolding clear
clear_lem m t = ground arith

-- CopyFrom makes the target equal to the source, whatever it held, if in both the unset fields
-- hold their defaults.
pub request_copy_from : (m from : Request) → IsTidy m → IsTidy from → copy_from m from ≡ from
unfolding copy_from
request_copy_from m from t u = ground (arith, append-nil from.unknown_fields)

-- Merging is associative: the last message that sets a field wins, and the unknown fields are kept in order.
pub merge_from_assoc :
    (a b c : Request) → merge_from (merge_from a b) c ≡ merge_from a (merge_from b c)
unfolding merge_from
merge_from_assoc a b c =
    ground (arith, append_assoc a.unknown_fields b.unknown_fields c.unknown_fields)
