-- ===== src/Protob/Response/Merge.antt =====
-- Clearing, merging and copying a Response.
use carrot_rpc.Prelude.{◌≡◌, arith}
use carrot_rpc.Protob.Response.{Response, new_response, clear, merge_from, copy_from, IsTidy}

-- On a Response whose unset fields hold their defaults, Clear gives the message of the constructor.
pub clear_lem : (m : Response) → IsTidy m → clear m ≡ new_response
unfolding clear
clear_lem m t = ground arith

merge_new : (from : Response) → IsTidy from → merge_from new_response from ≡ from
unfolding merge_from
merge_new from u = ground arith

-- CopyFrom makes the target equal to the source, whatever it held, if in both the unset fields
-- hold their defaults.
pub response_copy_from : (m from : Response) → IsTidy m → IsTidy from → copy_from m from ≡ from
unfolding copy_from
response_copy_from m from t u = rw (clear_lem m t) (merge_new from u)
