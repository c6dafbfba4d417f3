-- ===== src/Server/Async/Phase.antt =====
-- What a connection of the asynchronous server waits for, and what its handlers do to that.
use carrot_rpc.Prelude.{
  ◌≤◌, arith, length, ℕ, ◌+◌, ◌≡◌, refl, inl, inr, ap, Bool, true, false, not, ◌||◌, ◌&&◌, List, [],
  ◌∷◌, Bytes, leb, if◌then◌else◌, Bool-cases, Option-cases,
}
use carrot_rpc.Asio.{Error, no_error, eof, error}
use carrot_rpc.Packet.{sizeof_packet, Packet, header_at, convert_to_host_order}
use carrot_rpc.Buffer.{Buffer, Expanded, ready, failed, looping, expand_packet, IsConsistent}
use carrot_rpc.Buffer.Growth.{Holds, HoldsIfReady, expand_packet-HoldsIfReady}
use carrot_rpc.Server.Registry.{Services}
use carrot_rpc.Server.Simple.{Environment, packet_size, payload_size}
use carrot_rpc.Server.Async.{
  Pending, accepting, reading_header, reading_payload, writing_response, Connection, Ended,
  finished, raised, crashed, spins, destroy, bad_alloc, serve,
}
use carrot_rpc.Server.Async.Handlers.{start_payload, handle_read_header, handle_write_response}
use carrot_rpc.Server.Async.Step.{After}

-- A back pointer that is set points to a server that lives, and the server's map has the connection.
abbrev pub IsLinked : Bool → Connection → Type 0
IsLinked alive c = (not c.has_server || (alive && c.registered)) ≡ true

-- async_write was given bytes that the block holds.
pub record Writes (c : Connection) : Type 0 where
  pub bytes : Bytes
  pub earlier : List Bytes
  pub given : c.sent ≡ bytes ∷ earlier
  pub held : Holds c.buffer (length bytes)

-- The block holds what asio reads into it or writes from it: a header; the payload of n_ - sizeof(packet) bytes behind
-- the header; or the frame that is sent.
abbrev pub HasRoom : Connection → Pending → Type 0
HasRoom c accepting = ⊥
HasRoom c reading_header = Holds c.buffer sizeof_packet
HasRoom c reading_payload =
    Holds c.buffer c.n
    × (c.n ≡ packet_size c.header)
    × (sizeof_packet + payload_size c.header ≤ c.buffer.size)
HasRoom c writing_response = Writes c

abbrev pub Refuses : (ℕ → Bool) → Type 0
Refuses grants = (k : ℕ) × (grants k ≡ false)

-- A connection waits for a client; or it is open, and one operation on it is pending, with a block that is large
-- enough; or it is closed; or, after the allocator refused, it is open and nothing is pending.
pub data Phase (grants : ℕ → Bool) (alive : Bool) (c : Connection) : Type 0 where
  awaits :
      c.pending ≡ accepting ∷ []
      → c.opened ≡ false
      → IsLinked alive c
      → IsConsistent c.buffer
      → Phase grants alive c
  busy :
      (h : Pending)
      → c.pending ≡ h ∷ []
      → c.opened ≡ true
      → IsLinked alive c
      → HasRoom c h
      → Phase grants alive c
  over : c.pending ≡ [] → c.opened ≡ false → Phase grants alive c
  stalled : (k : ℕ) → grants k ≡ false → c.pending ≡ [] → c.opened ≡ true → Phase grants alive c

abbrev pub accepts : List Pending → ℕ
accepts [] = 0
accepts (accepting ∷ hs) = 1 + accepts hs
accepts (_ ∷ hs) = accepts hs

-- A connection that no longer waits for a client.
abbrev pub Ran : (ℕ → Bool) → Bool → Connection → Type 0
Ran grants alive c = Phase grants alive c × (accepts c.pending ≡ 0)

module _ {Msg : Type 0} (env : Environment Msg) (alive : Bool) where
  abbrev pub Runs : Ended Connection → Type 0
  Runs r = After (Ran env.grants alive) r

  -- A connection whose handler asio has taken.
  pub record IsIdle (c : Connection) : Type 0 where
    pub nothing : c.pending ≡ []
    pub opened : c.opened ≡ true
    pub linked : IsLinked alive c

  pub destroy-Ran : (c : Connection) → c.pending ≡ [] → Ran env.grants alive (destroy c)
  unfolding destroy
  destroy-Ran c nothing = (over nothing refl, ap accepts nothing)

  pub starts :
      (d : Connection) (h : Pending)
      → d.pending ≡ h ∷ []
      → d.opened ≡ true
      → IsLinked alive d
      → HasRoom d h
      → Ran env.grants alive d
  starts d accepting p o l room = absurd room
  starts d reading_header p o l room = (busy reading_header p o l room, ap accepts p)
  starts d reading_payload p o l room = (busy reading_payload p o l room, ap accepts p)
  starts d writing_response p o l room = (busy writing_response p o l room, ap accepts p)

  pub stalls :
      (d : Connection) (k : ℕ)
      → env.grants k ≡ false
      → d.pending ≡ []
      → d.opened ≡ true
      → Ran env.grants alive d
  stalls d k z p o = (stalled k z p o, ap accepts p)

  -- An exception that leaves serve is the allocator's.
  abbrev pub Serving : Ended Connection → Type 0
  Serving (finished d) = Ran env.grants alive d
  Serving (raised d what) = Ran env.grants alive d × Refuses env.grants
  Serving crashed = Unit {0}
  Serving spins = Unit {0}

  pub serve-Serving : (c : Connection) → IsIdle c → IsConsistent c.buffer → Serving (serve env c)
  unfolding serve
  serve-Serving c i consistent =
      go (expand_packet env.grants 32 c.buffer sizeof_packet)
        (expand_packet-HoldsIfReady env.grants 32 c.buffer sizeof_packet consistent)
    where
      go :
          (e : Expanded)
          → HoldsIfReady env.grants sizeof_packet e
          → Serving (elim e [
            | looping ↦ spins
            | failed b ↦ raised (record c { buffer = b }) bad_alloc
            | ready b ↦ finished (record c { buffer = b; pending = reading_header ∷ c.pending })
          ])
      go looping h = tt
      go (failed b) (k, z) = (stalls (record c { buffer = b }) k z i.nothing i.opened, (k, z))
      go (ready b) h =
          starts (record c { buffer = b; pending = reading_header ∷ c.pending }) reading_header
            (ap (◌∷◌ reading_header) i.nothing) i.opened i.linked h

  serve-Runs : (c : Connection) → IsIdle c → IsConsistent c.buffer → Runs (serve env c)
  serve-Runs c i consistent = go (serve env c) (serve-Serving c i consistent)
    where
      go : (r : Ended Connection) → Serving r → Runs r
      go (finished d) h = h
      go (raised d what) (h, _) = h
      go crashed h = tt
      go spins h = tt

  pub start_payload-Runs :
      (services : Services Msg) (p : Packet) (c : Connection)
      → IsIdle c
      → IsConsistent c.buffer
      → Runs (start_payload env services p c)
  unfolding start_payload
  start_payload-Runs services p c i consistent =
      go (expand_packet env.grants 32 c.buffer (packet_size p))
        (expand_packet-HoldsIfReady env.grants 32 c.buffer (packet_size p) consistent)
    where
      read : Buffer → Connection
      read b = record c { buffer = b; header = p; n = packet_size p }

      go :
          (e : Expanded)
          → HoldsIfReady env.grants (packet_size p) e
          → Runs (elim e [
            | looping ↦ spins
            | failed b ↦ raised (record c { buffer = b; header = p; n = packet_size p }) bad_alloc
            | ready b ↦
                if leb (sizeof_packet + payload_size p) b.size
                then finished (record c {
                  buffer = b;
                  header = p;
                  n = packet_size p;
                  pending = reading_payload ∷ c.pending;
                })
                else crashed
          ])
      go looping h = tt
      go (failed b) (k, z) = stalls (read b) k z i.nothing i.opened
      go (ready b) h = elim (Bool-cases (leb (sizeof_packet + payload_size p) b.size)) [
        | inr z ↦ rw z tt
        | inl y ↦ rw y (
            starts (record (read b) { pending = reading_payload ∷ c.pending }) reading_payload
              (ap (◌∷◌ reading_payload) i.nothing) i.opened i.linked (h, refl, ground (arith, y)))
      ]

  pub handle_read_header-Runs :
      (services : Services Msg) (e : Error) (bytes : Bytes) (c : Connection)
      → IsIdle c
      → IsConsistent c.buffer
      → Runs (handle_read_header env services e bytes c)
  unfolding handle_read_header
  handle_read_header-Runs services no_error bytes c i consistent =
      elim (Option-cases (header_at bytes)) [
        | inl e ↦ rw (e, handle_read_header) tt
        | inr ((image, rest), e) ↦
            rw (e, handle_read_header)
              (start_payload-Runs services (convert_to_host_order image) c i consistent)
      ]
  handle_read_header-Runs services eof bytes c i consistent = destroy-Ran c i.nothing
  handle_read_header-Runs services (error what) bytes c i consistent = destroy-Ran c i.nothing

  pub handle_write_response-Runs :
      (services : Services Msg) (e : Error) (c : Connection)
      → IsIdle c
      → IsConsistent c.buffer
      → Runs (handle_write_response env services e c)
  unfolding handle_write_response
  handle_write_response-Runs services no_error c i consistent = serve-Runs c i consistent
  handle_write_response-Runs services eof c i consistent = destroy-Ran c i.nothing
  handle_write_response-Runs services (error what) c i consistent = destroy-Ran c i.nothing
