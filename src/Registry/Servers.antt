-- ===== src/Registry/Servers.antt =====
-- `ServerRegistry` (AtlasNet/lib/Native/Interlink/Database/ServerRegistry.hpp and .cpp). `IPAddress` wraps an
-- address of the transport: its texts are a parameter.
use atlas_net.Prelude.{is_some}
use atlas_net.Prelude.{
  ℕ, ◌==◌, ◌≡◌, refl, ap, ◌∙◌, Bool, true, false, ◌||◌, List, [], ◌∷◌, Option, some, none,
  if◌then◌else◌, lex_same,
}
use atlas_net.Bytes.Result.{ok, err}
use atlas_net.Bytes.Reader
use atlas_net.Packets.Hash.{codes}
use atlas_net.Network.Identity
use atlas_net.Network.Identity.{NetworkIdentity, e_invalid}
use atlas_net.Network.Names.{nuke_string}
use atlas_net.Handoff.Maps.{Map}
use atlas_net.Interlink.Run.{Run, done, aborted, threw}
use atlas_net.Manifest.Bounds.{identity_bytes}
use atlas_net.Registry.Tables.{Text, Tables}

-- `IPAddress::ToString`, and `IPAddress::Parse` on a new address.
pub record Addresses : Type 1 where
  pub Address : Type 0
  pub to_text : Address → Text
  pub parse : Text → Address

abbrev pub id_ip_table : Text
id_ip_table = codes "Server Registry ID_IP"

abbrev pub public_table : Text
public_table = codes "Server Registry ID_IP_public"

unfoldable pub get_key_of_identifier : NetworkIdentity → Text
get_key_of_identifier who = identity_bytes who

module _ (ips : Addresses) where
  -- `ret.has_value()` and not `ret->empty()`
  unfoldable pub parse_some : Option Text → Option ips.Address
  parse_some none = none
  parse_some (some []) = none
  parse_some (some (c ∷ cs)) = some (ips.parse (c ∷ cs))

module _ (db : Tables) where
  unfoldable pub de_register_self : NetworkIdentity → db.State → db.State
  de_register_self who s =
      db.hdel public_table (get_key_of_identifier who)
        (db.hdel id_ip_table (get_key_of_identifier who) s)

  unfoldable pub exists_in_registry : NetworkIdentity → db.State → Bool
  exists_in_registry who s = db.hexists id_ip_table (get_key_of_identifier who) s

  unfoldable pub clear_all : db.State → db.State
  clear_all s = db.del_key public_table (db.del_key id_ip_table s)

  module _ (ips : Addresses) where
    unfoldable pub register_self : NetworkIdentity → ips.Address → db.State → db.State
    register_self who a s =
        db.hset id_ip_table (get_key_of_identifier who) (nuke_string (ips.to_text a)) s

    unfoldable pub register_public_address : NetworkIdentity → ips.Address → db.State → db.State
    register_public_address who a s =
        db.hset public_table (get_key_of_identifier who) (nuke_string (ips.to_text a)) s

    unfoldable pub get_ip_of_id : NetworkIdentity → db.State → Option ips.Address
    get_ip_of_id who s = parse_some ips (db.hget id_ip_table (get_key_of_identifier who) s)

    unfoldable pub get_public_address : NetworkIdentity → db.State → Option ips.Address
    get_public_address who s = parse_some ips (db.hget public_table (get_key_of_identifier who) s)

    module _ (same : NetworkIdentity → NetworkIdentity → Bool) where
      abbrev contains_server : NetworkIdentity → List (NetworkIdentity × ips.Address) → Bool
      contains_server who [] = false
      contains_server who (x ∷ xs) = same x.0 who || contains_server who xs

      unfoldable pub collect_servers :
          Map Text
          → List (NetworkIdentity × ips.Address)
          → Run (List (NetworkIdentity × ips.Address))
      collect_servers [] servers = done servers
      collect_servers (x ∷ xs) servers = elim (Identity.deserialize (Reader.new x.0)) [
        | err e ↦ threw e
        | ok r ↦
            let rest = collect_servers xs ((r.0, ips.parse x.1) ∷ servers) in
            if r.0.type == e_invalid
            then aborted
            else if contains_server r.0 servers
            then aborted
            else rest
      ]

      unfoldable pub get_servers : db.State → Run (List (NetworkIdentity × ips.Address))
      get_servers s = collect_servers (db.hget_all id_ip_table s) []

-- What is written of an address is a text that is read as the address.
pub record IsWritten (ips : Addresses) (a : ips.Address) : Type 0 where
  pub first : ℕ
  pub rest : Text
  pub written : nuke_string (ips.to_text a) ≡ first ∷ rest
  pub read : ips.parse (first ∷ rest) ≡ a

module _ (db : Tables) (ips : Addresses) where
  -- The text that is written of the address `a` is not empty and is read as `a`; the bytes of `who` and of
  -- `other` differ. Then, once `who` has registered itself with `a`, `GetIPOfID` finds `a`,
  -- `ExistsInRegistry` says that it is there, and the address of `other` is what it was; and once it
  -- has deregistered itself again, neither of its addresses is found, it is not there, and the address of
  -- `other` is still what it was.
  pub register_self_lem :
      (who other : NetworkIdentity) (a : ips.Address) (s : db.State)
      → IsWritten ips a
      → lex_same (get_key_of_identifier who) (get_key_of_identifier other) ≡ false
      → (get_ip_of_id db ips who (register_self db ips who a s) ≡ some a)
        × (exists_in_registry db who (register_self db ips who a s) ≡ true)
        × (get_ip_of_id db ips other (register_self db ips who a s) ≡ get_ip_of_id db ips other s)
        × (get_ip_of_id db ips who (de_register_self db who (register_self db ips who a s)) ≡ none)
        × (get_public_address db ips who (de_register_self db who (register_self db ips who a s))
            ≡ none)
        × (exists_in_registry db who (de_register_self db who (register_self db ips who a s))
            ≡ false)
        × (get_ip_of_id db ips other (de_register_self db who (register_self db ips who a s))
            ≡ get_ip_of_id db ips other s)
  unfolding get_ip_of_id register_self exists_in_registry de_register_self get_public_address
      parse_some
  register_self_lem who other a s w apart =
      let k = get_key_of_identifier who in
      let j = get_key_of_identifier other in
      let v = nuke_string (ips.to_text a) in
      let t = db.hset id_ip_table k v s in
      let t1 = db.hdel id_ip_table k t in
      let t2 = db.hdel public_table k t1 in
      let there = db.hget-hset id_ip_table k v s in
      let gone =
        db.hget-hdel_other id_ip_table k public_table k t1 refl ∙ db.hget-hdel id_ip_table k t in
      let kept = db.hget-hset_other id_ip_table j id_ip_table k v s apart in
      (
        ap (parse_some ips) (there ∙ ap some w.written) ∙ ap some w.read,
        db.hexists-hget id_ip_table k t ∙ ap is_some there,
        ap (parse_some ips) kept,
        ap (parse_some ips) gone,
        ap (parse_some ips) (db.hget-hdel public_table k t1),
        db.hexists-hget id_ip_table k t2 ∙ ap is_some gone,
        ap (parse_some ips) (
            db.hget-hdel_other id_ip_table j public_table k t1 refl
            ∙ db.hget-hdel_other id_ip_table j id_ip_table k t apart
            ∙ kept),
      )
