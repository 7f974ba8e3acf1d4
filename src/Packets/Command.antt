-- ===== src/Packets/Command.antt =====
-- AtlasNet/lib/Native/Interlink/Packet/CommandPacket.hpp. `command` is the pattern of the enumerator.
-- `ReadArgs` and `WriteArgs` run a callback on a reader or writer of the arguments.
use atlas_net.Prelude.{ℕ, ◌^◌, ◌<◌, ◌≡◌, refl, ◌==◌, Bool, not, List, length, arith}
use atlas_net.Bytes.Result.{Result, ok}
use atlas_net.Bytes.Writer
use atlas_net.Bytes.Writer.{Write}
use atlas_net.Bytes.Reader
use atlas_net.Bytes.Reader.{ByteReader, Read, ◌>>=◌, return}
use atlas_net.Bytes.Codec.{RoundTrips, RoundTrips-bind, RoundTrips-map, read-written, skip}
use atlas_net.Bytes.Integers.{RoundTrips-scalar32}
use atlas_net.Bytes.Blobs.{RoundTrips-blob}

abbrev pub e_invalid_command : ℕ
e_invalid_command = 0

pub record CommandPacket : Type 0 where
  pub command : ℕ
  pub args : List ℕ

unfoldable pub serialize_data : CommandPacket → Write
serialize_data p w = Writer.blob p.args (Writer.write_scalar32 p.command w)

unfoldable pub deserialize_data : Read CommandPacket
deserialize_data = do
  command ← Reader.read_scalar32
  args ← Reader.blob
  return (record { command = command; args = args })

unfoldable pub set_command_type : ℕ → CommandPacket → CommandPacket
set_command_type t p = record p { command = t }

unfoldable pub read_args {ℓ} : {A : Type ℓ} → Read A → CommandPacket → Result (A × ByteReader)
read_args m p = m (Reader.new p.args)

unfoldable pub write_args : Write → CommandPacket → CommandPacket
write_args f p = record p { args = (f Writer.new).buf }

unfoldable pub validate_data : CommandPacket → Bool
validate_data p = not (p.command == e_invalid_command)

RoundTrips-command :
    (p : CommandPacket)
    → p.command < 2 ^ 32
    → length p.args < 2 ^ 32
    → RoundTrips (serialize_data p) deserialize_data p
unfolding serialize_data deserialize_data
RoundTrips-command p hc ha =
    RoundTrips-bind _ _ _ _ p.command p (RoundTrips-scalar32 p.command hc)
      (RoundTrips-map _ _ _ p.args p refl (RoundTrips-blob p.args ha))

module _ {ℓ} {A : Type ℓ} (f : Write) (m : Read A) (a : A) (p : CommandPacket) where
  -- Where `m` reads back `a` from what `f` writes, `f` writes fewer than 2 ^ 32 bytes on a fresh
  -- writer, and the command fits its type: a packet whose arguments are written by `f` is read back
  -- by `DeserializeData` from what `SerializeData` appends, whatever follows, and `ReadArgs` with `m`
  -- returns `a` from it, with the arguments read to their end.
  pub write_args_delivered :
      RoundTrips f m a
      → p.command < 2 ^ 32
      → length (f Writer.new).buf < 2 ^ 32
      → RoundTrips (serialize_data (write_args f p)) deserialize_data (write_args f p)
        × (read_args m (write_args f p)
            ≡ ok (a, skip (length (f Writer.new).buf) (Reader.new (f Writer.new).buf)))
  unfolding write_args read_args
  write_args_delivered h hc few =
      (RoundTrips-command (write_args f p) hc few, read-written f m a h (omega arith))
