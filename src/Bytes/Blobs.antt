-- ===== src/Bytes/Blobs.antt =====
-- Byte strings: `write`, `uuid`, `str`, `blob` and `tlv` of ByteWriter.hpp, with `read`, `uuid`,
-- `str`, `blob` and `next_tlv` of ByteReader.hpp.
use mathlib.Core.Path.{subst, ap₂}
use native.Mathlib.Nat.{mod-eq_of_lt}
use atlas_net.Prelude.{
  ℕ, ◌+◌, ◌%◌, ◌^◌, ◌<◌, ◌≡◌, refl, ap, ◌∙◌, List, ◌++◌, length, take, take-append_self,
  length-append, arith, ltb, leb, ltb-false, ◌==◌, true, false, if◌then◌else◌, Option, some,
}
use atlas_net.Bytes.Result.{Error, ok, err, blob_overflow, string_overflow, tlv_overflow}
use atlas_net.Bytes.Writer
use atlas_net.Bytes.Writer.{ByteWriter}
use atlas_net.Bytes.Reader
use atlas_net.Bytes.Reader.{ByteReader, Read, ◌>>=◌, return, throw, copy, counted, remaining, size}
use atlas_net.Bytes.Codec.{
  IsValid, Writes, Reads, RoundTrips, Reads-bind, Writes-bind, RoundTrips-map, unread, skip,
  unread_length, RoundTrips-bind,
}
use atlas_net.Bytes.Integers.{advance-skip, be_bytes, length-be_bytes, Reads-be, Writes-push_be}
use atlas_net.Bytes.Varint.{RoundTrips-var_u32}

Writes-write : (bs : List ℕ) → Writes (Writer.write bs) bs
unfolding Writer.write
Writes-write bs w = refl

Reads-copy : (bs : List ℕ) → Reads (copy (length bs)) bs bs
unfolding copy
Reads-copy bs r rest v u =
    let fits : leb (r.position + length bs) (size r) ≡ true =
      ground (arith, unread_length r bs rest v u) in
    rw (fits, copy)
      (ap₂ (λ l s. ok (l, s)) (ap (take (length bs)) u ∙ take-append_self bs rest)
        (advance-skip r bs rest v u))

-- What is left in the span.
remaining_lem :
    (r : ByteReader) (bs rest : List ℕ)
    → IsValid r
    → unread r ≡ bs ++ rest
    → remaining r ≡ length bs + length rest
remaining_lem r bs rest v u = omega (arith, unread_length r bs rest v u, v.within, v.addressable)

-- `read(out, n)` where `n` bytes are there.
pub Reads-read : (bs : List ℕ) → Reads (Reader.read (length bs)) bs bs
unfolding Reader.read
Reads-read bs r rest v u =
    let fits : ltb (size r) ((r.position + length bs) % 2 ^ 64) ≡ false =
      ltb-false _ _ (omega (arith, v.addressable, unread_length r bs rest v u)) in
    rw (fits, Reader.read) (Reads-copy bs r rest v u)

Reads-uuid : (id : List ℕ) → length id ≡ 16 → Reads Reader.uuid id id
unfolding Reader.uuid
Reads-uuid id h r rest v u =
    let there : ltb (remaining r) 16 ≡ false =
      ltb-false _ _ (omega (arith, remaining_lem r id rest v u)) in
    rw (there, Reader.uuid)
      (subst (λ n. Reader.read n r ≡ ok (id, skip (length id) r)) h (Reads-read id r rest v u))

pub RoundTrips-uuid : (id : List ℕ) → length id ≡ 16 → RoundTrips (Writer.uuid id) Reader.uuid id
unfolding Writer.uuid
RoundTrips-uuid id h = (id, Writes-write id, Reads-uuid id h)

-- The bytes behind a length that has just been read.
Reads-tail :
    (e : Error) (bs : List ℕ)
    → Reads (λ r. if ltb (remaining r) (length bs) then err e else copy (length bs) r) bs bs
Reads-tail e bs r rest v u =
    let there : ltb (remaining r) (length bs) ≡ false =
      ltb-false _ _ (omega (arith, remaining_lem r bs rest v u)) in
    rw there (Reads-copy bs r rest v u)

RoundTrips-counted :
    (e : Error) (bs : List ℕ)
    → length bs < 2 ^ 32
    → RoundTrips (λ w. Writer.write bs (Writer.var_u32 (length bs % 2 ^ 32) w)) (counted e) bs
unfolding counted
RoundTrips-counted e bs h = rw (mod-eq_of_lt h) (
    RoundTrips-bind (Writer.var_u32 (length bs)) (Writer.write bs) Reader.var_u32 _ (length bs) bs
      (RoundTrips-var_u32 (length bs) h) (bs, Writes-write bs, Reads-tail e bs))

pub RoundTrips-blob :
    (bs : List ℕ) → length bs < 2 ^ 32 → RoundTrips (Writer.blob bs) Reader.blob bs
unfolding Writer.blob Reader.blob
RoundTrips-blob = RoundTrips-counted blob_overflow

pub RoundTrips-str : (s : List ℕ) → length s < 2 ^ 32 → RoundTrips (Writer.str s) Reader.str s
unfolding Writer.str Reader.str
RoundTrips-str = RoundTrips-counted string_overflow

abbrev found : ℕ → List ℕ → Option (ℕ × List ℕ)
found tag value = some (tag, value)

-- The body of `next_tlv`, behind its test for the end of the input.
tlv_body : Read (Option (ℕ × List ℕ))
tlv_body = Reader.u16 >>= λ t. counted tlv_overflow >>= λ value. return (found t value)

module _ (tag : ℕ) (payload : List ℕ) (ht : tag < 2 ^ 16) (hp : length payload < 2 ^ 32) where
  counted_payload :
      RoundTrips
        (λ w. Writer.write payload (Writer.var_u32 (length payload % 2 ^ 32) w))
        (counted tlv_overflow)
        payload
  counted_payload = RoundTrips-counted tlv_overflow payload hp

  wrapped :
      RoundTrips
        (λ w. Writer.write payload (Writer.var_u32 (length payload % 2 ^ 32) w))
        (counted tlv_overflow >>= λ value. return (found tag value))
        (found tag payload)
  wrapped = RoundTrips-map _ _ (found tag) payload _ refl counted_payload

  tlv_bytes : List ℕ
  tlv_bytes = be_bytes 2 tag ++ wrapped.0

  Reads-tlv_body : Reads tlv_body tlv_bytes (found tag payload)
  unfolding tlv_body Reader.u16 tlv_bytes
  Reads-tlv_body =
      Reads-bind (Reader.read_be 2) _ (be_bytes 2 tag) wrapped.0 tag _ (Reads-be 2 tag ht) wrapped.2

  -- For a tag below 2 ^ 16 and a payload of fewer than 2 ^ 32 bytes, `tlv` appends bytes from which
  -- `next_tlv` reads the tag and the payload back and stops behind them, whatever follows.
  pub RoundTrips-tlv :
      RoundTrips
        (Writer.tlv tag (record Writer.new { buf = payload }))
        Reader.next_tlv
        (found tag payload)
  unfolding Writer.tlv Writer.u16 Reader.next_tlv tlv_body tlv_bytes
  RoundTrips-tlv = (tlv_bytes, writes, reads)
    where
      writes : Writes (Writer.tlv tag (record Writer.new { buf = payload })) tlv_bytes
      writes =
          Writes-bind (Writer.push_be 2 tag) _ (be_bytes 2 tag) wrapped.0 (Writes-push_be 2 tag)
            wrapped.1

      reads : Reads Reader.next_tlv tlv_bytes (found tag payload)
      reads r rest v u =
          let there : (remaining r == 0) ≡ false = ground (
            arith,
            remaining_lem r tlv_bytes rest v u,
            length-append (be_bytes 2 tag) wrapped.0,
            length-be_bytes 2 tag,
          ) in
          rw (there, Reader.next_tlv) (Reads-tlv_body r rest v u)
