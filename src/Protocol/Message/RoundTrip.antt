-- ===== src/Protocol/Message/RoundTrip.antt =====
-- What `encode` writes, `decode` reads back.
use echo_frame.Base.{
  ℕ, ◌+◌, ◌-◌, ◌*◌, ◌%◌, ◌^◌, ◌≤◌, ◌<◌, ◌≡◌, refl, sym, ap, ◌∙◌, subst, inl, inr, Option, none,
  some, List, [], ◌∷◌, ◌++◌, take, length-append, append_assoc, append-nil, arith, ltb, le→leb,
  ltb→lt, not_ltb→le, nil_of_length, le→ltb, lt→ltb, Bool-cases,
}
use echo_frame.Base
use echo_frame.Base.Bytes.{to_bytes, length-to_bytes}
use echo_frame.Buffer.Memory.{Malloc}
use echo_frame.Buffer.SkBuffer.{SkBuffer, u32}
use echo_frame.Buffer.SkBuffer.Valid.{IsValid, content}
use echo_frame.Buffer.IoBuf.{done, create}
use echo_frame.Buffer.IoBuf.Fifo.{
  Holds, Holds-length, write_bytes-Holds, readable_bytes-Holds, create-Holds,
}
use echo_frame.Buffer.IoBuf.Codec.{
  Appends, Takes, write_number-Appends, seq-Appends, read_number-Takes, bind-Takes, pure-Takes,
}
use echo_frame.Protocol.Message.{
  MagicMessage, blank, head_len, write_head, write_payload, encode, read_head, read_payload, decode,
}

-- Each field fits its width.
pub record Fits (msg : MagicMessage) : Type 0 where
  pub length : msg.length < 256 ^ 4
  pub flag : msg.flag < 256 ^ 1
  pub version : msg.version < 256 ^ 2
  pub is_request : msg.is_request < 256 ^ 1
  pub request_id : msg.request_id < 256 ^ 8
  pub server_number : msg.server_number < 256 ^ 4

-- The bytes of the head, in the order of the wire.
abbrev pub head_bytes : MagicMessage → List ℕ
head_bytes msg =
    to_bytes 4 msg.length
    ++ (to_bytes 1 msg.flag
        ++ (to_bytes 2 msg.version
            ++ (to_bytes 1 msg.is_request
                ++ (to_bytes 8 msg.request_id ++ to_bytes 4 msg.server_number))))

-- The bytes of the payload; no payload counts as an empty one.
abbrev pub payload_bytes : Option SkBuffer → List ℕ
payload_bytes none = []
payload_bytes (some p) = content p

abbrev pub wire : MagicMessage → List ℕ
wire msg = head_bytes msg ++ payload_bytes msg.payload

pub length-head_bytes : (msg : MagicMessage) → Base.length (head_bytes msg) ≡ 20
length-head_bytes msg = omega (arith, length-append {0}, length-to_bytes)

module _ (m : Malloc) (msg : MagicMessage) (f : Fits msg) where
  write_head-Appends : Appends (write_head m msg) (head_bytes msg)
  write_head-Appends = seq-Appends _ _ _ _ (write_number-Appends m 4 msg.length f.length) (
      seq-Appends _ _ _ _ (write_number-Appends m 1 msg.flag f.flag) (
        seq-Appends _ _ _ _ (write_number-Appends m 2 msg.version f.version) (
          seq-Appends _ _ _ _ (write_number-Appends m 1 msg.is_request f.is_request) (
            seq-Appends _ _ _ _ (write_number-Appends m 8 msg.request_id f.request_id)
              (write_number-Appends m 4 msg.server_number f.server_number)))))

  read_head-Takes :
      (old : MagicMessage)
      → Takes (read_head m old) (record msg { payload = old.payload }) (head_bytes msg)
  read_head-Takes old =
      subst
        (λ k.
          Takes (read_head m old) (record msg { payload = old.payload })
            (to_bytes 4 msg.length
              ++ (to_bytes 1 msg.flag
                  ++ (to_bytes 2 msg.version
                      ++ (to_bytes 1 msg.is_request ++ (to_bytes 8 msg.request_id ++ k))))))
        (append-nil (to_bytes 4 msg.server_number))
        (bind-Takes _ _ msg.length _ _ _ (read_number-Takes 4 msg.length f.length (omega arith)) (
          bind-Takes _ _ msg.flag _ _ _ (read_number-Takes 1 msg.flag f.flag (omega arith)) (
            bind-Takes _ _ msg.version _ _ _
              (read_number-Takes 2 msg.version f.version (omega arith))
              (bind-Takes _ _ msg.is_request _ _ _
                (read_number-Takes 1 msg.is_request f.is_request (omega arith))
                (bind-Takes _ _ msg.request_id _ _ _
                  (read_number-Takes 8 msg.request_id f.request_id (omega arith))
                  (bind-Takes _ _ msg.server_number _ _ _
                    (read_number-Takes 4 msg.server_number f.server_number (omega arith))
                    (pure-Takes _)))))))

-- A payload that is there is a valid buffer.
abbrev pub PayloadIsValid : Option SkBuffer → Type 0
PayloadIsValid none = Unit {0}
PayloadIsValid (some p) = IsValid p

write_payload-Appends :
    (m : Malloc) (p : Option SkBuffer)
    → PayloadIsValid p
    → Appends (write_payload m p) (payload_bytes p)
write_payload-Appends m none v capacity b xs h room =
    (b, refl, subst (Holds capacity b) (sym (append-nil xs)) h)
write_payload-Appends m (some p) v capacity b xs h room =
    let (t, e, ht) = write_bytes-Holds h m (content p) room in
    (t, rw (readable_bytes-Holds {b = p} (record { valid = v; bytes = refl; cap = refl })) e, ht)

-- A message that `encode` can write whole: its fields fit, its payload is sound, and its length
-- counts the head and the payload.
pub record IsEncodable (msg : MagicMessage) : Type 0 where
  pub fits : Fits msg
  pub payload_valid : PayloadIsValid msg.payload
  pub counted : 20 + Base.length (payload_bytes msg.payload) ≤ msg.length
  pub small : msg.length < 2 ^ 31

pub encode_lem :
    (m : Malloc) (msg : MagicMessage)
    → IsEncodable msg
    → (t : SkBuffer) × (encode m msg ≡ done tt t) × Holds msg.length t (wire msg)
unfolding encode
encode_lem m msg v =
    let (b, e, h) =
      write_head-Appends m msg v.fits msg.length (create m msg.length) []
        (create-Holds m msg.length v.small) (omega (arith, length-head_bytes msg, v.counted)) in
    let (t, e', ht) =
      write_payload-Appends m msg.payload v.payload_valid msg.length b (head_bytes msg) h
        (omega (arith, length-head_bytes msg, v.counted)) in
    (t, rw (e, e'), ht)

-- What is left of a message that a payload is added to.
module _ (m : Malloc) (msg : MagicMessage) {capacity : ℕ} {b : SkBuffer} {xs : List ℕ}
    (h : Holds capacity b xs) where
  read_payload-none : Base.length xs ≡ 0 → read_payload m msg b ≡ done msg b
  read_payload-none e = rw (
    le→leb b.readable_at b.writeable_at h.valid.ordered,
    le→ltb 0 (b.writeable_at - b.readable_at) (omega (arith, Holds-length h)),
  )

  read_payload-some :
      0 < Base.length xs
      → 20 + Base.length xs ≤ msg.length
      → msg.length < 2 ^ 31
      → (p : SkBuffer) × (read_payload m msg b ≡ done (record msg { payload = some p }) b)
        × Holds (msg.length - 20) p xs
  read_payload-some pos room small =
      let (p, e, hp) =
        write_bytes-Holds (create-Holds m (msg.length - 20) (omega arith)) m xs (omega arith) in
      (
        p,
        rw (
          le→leb b.readable_at b.writeable_at h.valid.ordered,
          lt→ltb 0 (b.writeable_at - b.readable_at) (omega (arith, Holds-length h)),
          readable_bytes-Holds h,
          size,
          e,
        ),
        hp,
      )
    where
      size : u32 (msg.length + 2 ^ 32 - head_len) ≡ msg.length - 20
      size = omega arith

-- The outcome of `decode`: the head's fields are those of `msg`, and the payload holds its bytes.
pub record Decoded (msg got : MagicMessage) : Type 0 where
  pub head : record got { payload = none } ≡ record msg { payload = none }
  pub bytes : payload_bytes got.payload ≡ payload_bytes msg.payload
  pub valid : PayloadIsValid got.payload

pub decode_lem :
    (m : Malloc) (msg : MagicMessage) {capacity : ℕ} {b : SkBuffer}
    → IsEncodable msg
    → Holds capacity b (wire msg)
    → (got : MagicMessage) × (t : SkBuffer) × (decode m blank b ≡ done got t) × Decoded msg got
unfolding decode
decode_lem m msg {capacity} {b} v h =
    let (t, e, ht) = read_head-Takes m msg v.fits blank capacity b (payload_bytes msg.payload) h in
    elim (Bool-cases (ltb 0 (Base.length (payload_bytes msg.payload)))) [
      | inl some_bytes ↦
          let (p, e', hp) =
            read_payload-some m (record msg { payload = none }) ht
              (ltb→lt 0 (Base.length (payload_bytes msg.payload)) some_bytes) v.counted v.small in
          (
            record msg { payload = some p },
            t,
            rw (e, e'),
            record { head = refl; bytes = hp.bytes; valid = hp.valid },
          )
      | inr no_bytes ↦
          let empty : Base.length (payload_bytes msg.payload) ≡ 0 =
            omega (arith, not_ltb→le 0 (Base.length (payload_bytes msg.payload)) no_bytes) in
          (
            record msg { payload = none },
            t,
            rw (e, read_payload-none m (record msg { payload = none }) ht empty),
            record {
              head = refl;
              bytes = sym (nil_of_length (payload_bytes msg.payload) empty);
              valid = tt;
            },
          )
    ]

-- A message whose fields fit their widths, whose payload is a valid buffer, and whose length is
-- below 2 ^ 31 and counts at least the head and the payload, is encoded without an error, and
-- decoding what was written gives its head back, and a payload that holds the same bytes.
pub decode-encode :
    (m : Malloc) (msg : MagicMessage)
    → IsEncodable msg
    → (t : SkBuffer) × (u : SkBuffer) × (got : MagicMessage) × (encode m msg ≡ done tt t)
      × (decode m blank t ≡ done got u)
      × Decoded msg got
decode-encode m msg v =
    let (t, e, h) = encode_lem m msg v in
    let (got, u, e', d) = decode_lem m msg v h in (t, u, got, e, e', d)
