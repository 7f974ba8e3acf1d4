-- ===== src/Examples/Registry.antt =====
-- Two shards, of which one has not pinged in time, and a client that changes its proxy.
use atlas_net.Prelude.{
  ℕ, ◌+◌, ◌≡◌, refl, sym, ◌∙◌, inl, inr, true, false, ltb, List, [], ◌∷◌, Option, some, none,
  if◌then◌else◌, arith, Bool-cases, lex_same,
}
use mathlib.Core.Path.{subst}
use atlas_net.Bytes.Writer
use atlas_net.Bytes.Reader
use atlas_net.Network.Identity
use atlas_net.Network.Identity.{NetworkIdentity, e_proxy}
use atlas_net.Network.Names.{nuke_string, trim_end, trim_start, visible_only, keeps, is_space}
use atlas_net.Ledger.Uuids.{bytewise}
use atlas_net.Handoff.Maps.{listed, same-eq, true-ne-false}
use atlas_net.Interlink.Run.{done}
use atlas_net.Manifest.Bounds.{identity_bytes}
use atlas_net.Registry.Tables.{Text}
use atlas_net.Registry.Kept.{State, kept, blank}
use atlas_net.Registry.Health.{
  Doubles, health_ping_table, get_expired_pings, get_live_pings, check_round,
}
use atlas_net.Registry.Expiry.{expires, get_expired_pings_lem}
use atlas_net.Registry.Rounds.{Names, check_round_lem}
use atlas_net.Registry.Servers.{
  Addresses, get_key_of_identifier, register_self, de_register_self, get_ip_of_id,
  get_public_address, exists_in_registry, register_self_lem,
}
use atlas_net.Registry.Clients.{
  client_bytes, proxy_clients_set, client_proxy_table, client_get_proxy, assign_proxy_client,
  assign_proxy_client_lem,
}
use atlas_net.Examples.Handoff.{text, west, east}
use atlas_net.Examples.Ledger.{uuid_from}

-- A number is a text of one digit.
abbrev digit : Text → Option ℕ
digit [] = none
digit (n ∷ []) = some n
digit (n ∷ m ∷ ms) = none

abbrev ticks : Doubles
ticks = record {
  Double = ℕ;
  ttl = λ n. n + 5;
  greater = λ n m. ltb m n;
  print = λ n. n ∷ [];
  stod = digit;
}

abbrev pinged : State
pinged =
    kept.hset health_ping_table (identity_bytes east) (30 ∷ [])
      (kept.hset health_ping_table (identity_bytes west) (10 ∷ []) blank)

get_expired_pings_lem_example :
    (keys : List Text) × (get_expired_pings kept ticks 20 pinged ≡ done keys)
    × (get_live_pings kept ticks 20 pinged ≡ done keys)
    × ((k : Text)
        → listed bytewise k keys ≡ expires ticks 20 (kept.hget health_ping_table k pinged))
unfolding identity_bytes Identity.serialize Writer.uuid Writer.write Writer.write_scalar32
    Writer.push_be Writer.u8 Writer.new
get_expired_pings_lem_example =
    get_expired_pings_lem kept ticks 20 pinged ((10, refl), ((30, refl), tt))

-- Only the ping of `west` has expired.
west_named : Names kept (identity_bytes west)
unfolding identity_bytes Identity.serialize Identity.deserialize Writer.uuid Writer.write
    Writer.write_scalar32 Writer.push_be Writer.u8 Writer.new Reader.read_scalar32 Reader.read_be
    Reader.new Reader.be_loop Reader.next_byte Reader.uuid Reader.read Reader.copy
west_named = (_, refl)

others_fresh :
    (k : Text)
    → lex_same (identity_bytes west) k ≡ false
    → expires ticks 20 (kept.hget health_ping_table k pinged) ≡ false
unfolding identity_bytes Identity.serialize Identity.deserialize Writer.uuid Writer.write
    Writer.write_scalar32 Writer.push_be Writer.u8 Writer.new
others_fresh k apart = elim (Bool-cases (lex_same (identity_bytes east) k)) [
  | inl is ↦ rw (apart, is) refl
  | inr gone ↦ rw (apart, gone) refl
]

west_only :
    (k : Text) → expires ticks 20 (kept.hget health_ping_table k pinged) ≡ true → Names kept k
west_only k h = elim (Bool-cases (lex_same (identity_bytes west) k)) [
  | inl is ↦ subst (Names kept) (same-eq bytewise (identity_bytes west) k is) west_named
  | inr apart ↦ absurd (true-ne-false (sym h ∙ others_fresh k apart))
]

check_round_lem_example :
    (t : State) × (check_round kept ticks text 20 pinged ≡ done t)
    × ((k : Text)
        → kept.hget health_ping_table k t ≡ (
            if expires ticks 20 (kept.hget health_ping_table k pinged)
            then none
            else kept.hget health_ping_table k pinged))
unfolding identity_bytes Identity.serialize Writer.uuid Writer.write Writer.write_scalar32
    Writer.push_be Writer.u8 Writer.new
check_round_lem_example =
    check_round_lem kept text ticks 20 pinged ((10, refl), ((30, refl), tt)) west_only

abbrev by_text : Addresses
by_text = record { Address = Text; to_text = λ a. a; parse = λ a. a }

abbrev home : Text
home = 49 ∷ 50 ∷ []

register_self_lem_example :
    (get_ip_of_id kept by_text west (register_self kept by_text west home blank) ≡ some home)
    × (exists_in_registry kept west (register_self kept by_text west home blank) ≡ true)
    × (get_ip_of_id kept by_text east (register_self kept by_text west home blank)
        ≡ get_ip_of_id kept by_text east blank)
    × (get_ip_of_id kept by_text west
          (de_register_self kept west (register_self kept by_text west home blank))
        ≡ none)
    × (get_public_address kept by_text west
          (de_register_self kept west (register_self kept by_text west home blank))
        ≡ none)
    × (exists_in_registry kept west
          (de_register_self kept west (register_self kept by_text west home blank))
        ≡ false)
    × (get_ip_of_id kept by_text east
          (de_register_self kept west (register_self kept by_text west home blank))
        ≡ get_ip_of_id kept by_text east blank)
unfolding get_key_of_identifier identity_bytes Identity.serialize Writer.uuid Writer.write
    Writer.write_scalar32 Writer.push_be Writer.u8 Writer.new nuke_string trim_end trim_start
    visible_only keeps is_space
register_self_lem_example =
    register_self_lem kept by_text west east home blank
      (record { first = 49; rest = 50 ∷ []; written = refl; read = refl }) refl

abbrev gate : ℕ → NetworkIdentity
gate n = record { type = e_proxy; id = uuid_from n }

-- The client 1 has a proxy.
abbrev assigned_once : State
assigned_once =
    kept.hset client_proxy_table (client_bytes (uuid_from 1)) (identity_bytes (gate 7)) blank

assign_proxy_client_lem_example :
    (t : State) × (assign_proxy_client kept (uuid_from 1) (gate 8) assigned_once ≡ done t)
    × (client_get_proxy kept (uuid_from 1) t ≡ done (some (gate 8)))
    × (kept.sismember proxy_clients_set (client_bytes (uuid_from 1)) t ≡ true)
    × (client_get_proxy kept (uuid_from 2) t ≡ client_get_proxy kept (uuid_from 2) assigned_once)
unfolding client_get_proxy client_bytes identity_bytes Identity.serialize Identity.deserialize
    Writer.uuid Writer.write Writer.write_scalar32 Writer.push_be Writer.u8 Writer.new
    Reader.read_scalar32 Reader.read_be Reader.new Reader.be_loop Reader.next_byte Reader.uuid
    Reader.read Reader.copy
assign_proxy_client_lem_example =
    assign_proxy_client_lem kept (uuid_from 1) (uuid_from 2) (gate 8) (some (gate 7)) assigned_once
      refl refl (omega arith) (omega arith) refl
