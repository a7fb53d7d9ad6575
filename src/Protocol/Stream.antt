-- ===== src/Protocol/Stream.antt =====
-- The loops that cut what a connection received into packets: the common part of
-- MyServant::handlePackets (net/server/MyServant.cc) and MyProxy::onRead (net/client/MyProxy.cc).
-- A round looks at the readable bytes of the read buffer and says whether the loop goes on.
use echo_frame.Base.{
  ℕ, zero, suc, ◌-◌, ◌<◌, ◌≡◌, Bool, true, false, Option, none, some, List, [], ◌++◌, ◌==◌,
  if◌then◌else◌, length, arith, le→leb, ne→==, eq→==, le→ltb,
}
use echo_frame.Buffer.Memory.{Result, ok, fault, load, load_inside}
use echo_frame.Buffer.SkBuffer.{SkBuffer, get_readable_length, readable}
use echo_frame.Buffer.IoBuf.{Step, done, thrown, crashed}
use echo_frame.Buffer.IoBuf.Fifo.{Holds, Holds-length}
use echo_frame.Protocol.Framing.{PacketStatus, get_packet_length, is_packet_complete}

-- `MyCodec`: the virtual functions that a dispatcher asks about the bytes at hand.
pub record Codec : Type 0 where
  pub is_complete : Option (List ℕ) → ℕ → PacketStatus
  pub packet_length : Option (List ℕ) → ℕ → ℕ

-- `MyMagicCodec`
abbrev pub magic_codec : Codec
magic_codec = record { is_complete = is_packet_complete; packet_length = get_packet_length }

-- The bytes behind the pointer that a read buffer hands out.
abbrev pub bytes_at : Option ℕ → ℕ → SkBuffer → Result (List ℕ)
bytes_at none got t = ok []
bytes_at (some off) got t = load off got t.bytes

-- One round of a loop: whether it goes on, and what it did.
abbrev pub Round : Type 0 → Type 0
Round A = Bool × List A

module _ {A : Type 0} where
  -- What a round makes of the bytes that the read buffer shows.
  abbrev pub with_bytes :
      SkBuffer
      → (Option (List ℕ) → ℕ → Step (Round A))
      → Option ℕ
      → ℕ
      → Result (List ℕ)
      → Step (Round A)
  with_bytes b f at got (fault e) = crashed e
  with_bytes b f none got (ok buf) = done (false, []) b
  with_bytes b f (some off) got (ok buf) = if got == 0 then done (false, []) b else f (some buf) got

  abbrev pub shown :
      SkBuffer → (Option (List ℕ) → ℕ → Step (Round A)) → Result (Option ℕ × ℕ) → Step (Round A)
  shown b f (fault e) = crashed e
  shown b f (ok (at, got)) = with_bytes b f at got (bytes_at at got b)

  -- The head of a round: the readable length, then the readable bytes.
  abbrev pub look : SkBuffer → (Option (List ℕ) → ℕ → Step (Round A)) → Result ℕ → Step (Round A)
  look b f (fault e) = crashed e
  look b f (ok len) = if len == 0 then done (false, []) b else shown b f (readable len b)

  -- `do … while`: rounds on fuel, `none` where the fuel runs out.
  abbrev pub prepend : List A → Option (Step (List A)) → Option (Step (List A))
  prepend acts none = none
  prepend acts (some (done more t)) = some (done (acts ++ more) t)
  prepend acts (some (thrown t)) = some (thrown t)
  prepend acts (some (crashed e)) = some (crashed e)

  abbrev pub go_on : Step (Round A) → (SkBuffer → Option (Step (List A))) → Option (Step (List A))
  go_on (done (true, acts) t) next = prepend acts (next t)
  go_on (done (false, acts) t) next = some (done acts t)
  go_on (thrown t) next = some (thrown t)
  go_on (crashed e) next = some (crashed e)

  unfoldable pub rounds : (SkBuffer → Step (Round A)) → ℕ → SkBuffer → Option (Step (List A))
  rounds round zero b = none
  rounds round (suc fuel) b = go_on (round b) (λ t. rounds round fuel t)

  -- A buffer that holds bytes shows all of them.
  pub look-Holds :
      {capacity : ℕ} {b : SkBuffer} {xs : List ℕ}
      → Holds capacity b xs
      → 0 < length xs
      → (f : Option (List ℕ) → ℕ → Step (Round A))
      → look b f (get_readable_length b) ≡ f (some xs) (length xs)
  look-Holds {b = b} {xs} h pos f = rw (
    le→leb b.readable_at b.writeable_at h.valid.ordered,
    ne→== (b.writeable_at - b.readable_at) 0 (omega (arith, Holds-length h)),
    le→leb b.readable_at b.writeable_at h.valid.ordered,
    ne→== (b.writeable_at - b.readable_at) 0 (omega (arith, Holds-length h)),
    le→ltb (b.writeable_at - b.readable_at) (b.writeable_at - b.readable_at) (omega arith),
    load_inside b.readable_at (b.writeable_at - b.readable_at) b.bytes (omega (arith, h.valid)),
    h.bytes,
    ne→== (b.writeable_at - b.readable_at) 0 (omega (arith, Holds-length h)),
    Holds-length h,
  )

  -- A buffer that holds none ends the loop.
  pub look_empty :
      {capacity : ℕ} {b : SkBuffer}
      → Holds capacity b []
      → (f : Option (List ℕ) → ℕ → Step (Round A))
      → look b f (get_readable_length b) ≡ done (false, []) b
  look_empty {b = b} h f = rw (
    le→leb b.readable_at b.writeable_at h.valid.ordered,
    eq→== (b.writeable_at - b.readable_at) 0 (omega (arith, Holds-length h)),
  )
