-- ===== src/Registry/Clients.antt =====
-- `ClientManifest` (AtlasNet/lib/Native/Client/ClientManifest.hpp and .cpp). How an `IPAddress` is serialised is
-- a parameter. `GetProxyClients` and `GetClientProxy` are declared without a body, and
-- `__ProxyRemoveClients` is called by nobody.
use atlas_net.Prelude.{
  ℕ, ◌<◌, ◌^◌, ◌==◌, ◌≡◌, refl, ◌∙◌, true, false, List, Option, some, none, if◌then◌else◌, length,
  lex_same,
}
use atlas_net.Bytes.Result.{ok, err}
use atlas_net.Bytes.Writer
use atlas_net.Bytes.Writer.{Write}
use atlas_net.Bytes.Reader
use atlas_net.Bytes.Codec.{read-written}
use atlas_net.Packets.Hash.{codes}
use atlas_net.Network.Identity
use atlas_net.Network.Identity.{NetworkIdentity, IsIdentity, RoundTrips-identity, e_proxy}
use atlas_net.Interlink.Run.{Run, done, aborted, threw, ◌>>=◌}
use atlas_net.Manifest.Bounds.{identity_bytes}
use atlas_net.Registry.Tables.{Text, Tables}

abbrev pub client_ip_table : Text
client_ip_table = codes "ClientID to IP"

abbrev pub client_proxy_table : Text
client_proxy_table = codes "ClientID to ProxyID"

-- The braces stand for nothing: there is one set.
abbrev pub proxy_clients_set : Text
proxy_clients_set = codes "Proxy_{}_Clients"

unfoldable pub client_bytes : List ℕ → Text
client_bytes c = (Writer.uuid c Writer.new).buf

module _ (db : Tables) where
  unfoldable pub client_set_ip : List ℕ → Write → db.State → db.State
  client_set_ip c address s = db.hset client_ip_table (client_bytes c) (address Writer.new).buf s

  unfoldable pub register_client : List ℕ → Write → db.State → db.State
  register_client c address s = client_set_ip c address s

  unfoldable pub client_set_proxy : List ℕ → NetworkIdentity → db.State → db.State
  client_set_proxy c proxy s = db.hset client_proxy_table (client_bytes c) (identity_bytes proxy) s

  unfoldable pub client_get_proxy : List ℕ → db.State → Run (Option NetworkIdentity)
  client_get_proxy c s = elim (db.hget client_proxy_table (client_bytes c) s) [
    | none ↦ done none
    | some v ↦ elim (Identity.deserialize (Reader.new v)) [
      | err e ↦ threw e
      | ok r ↦ done (some r.0)
    ]
  ]

  unfoldable pub proxy_remove_client : NetworkIdentity → List ℕ → db.State → db.State
  proxy_remove_client proxy c s = db.srem proxy_clients_set (client_bytes c) s

  unfoldable pub proxy_add_client : NetworkIdentity → List ℕ → db.State → db.State
  proxy_add_client proxy c s = db.sadd proxy_clients_set (client_bytes c) s

  unfoldable pub leave_proxy : Option NetworkIdentity → List ℕ → db.State → db.State
  leave_proxy none c s = s
  leave_proxy (some old) c s = proxy_remove_client old c s

  unfoldable pub assign_proxy_client : List ℕ → NetworkIdentity → db.State → Run db.State
  assign_proxy_client c proxy s =
      if proxy.type == e_proxy
      then (client_get_proxy c s >>= λ old.
          done (proxy_add_client proxy c (client_set_proxy c proxy (leave_proxy old c s))))
      else aborted

  -- The two sets of calls do not touch the table.
  hget-leave_proxy :
      (old : Option NetworkIdentity) (c : List ℕ) (f : Text) (s : db.State)
      → db.hget client_proxy_table f (leave_proxy old c s) ≡ db.hget client_proxy_table f s
  unfolding leave_proxy proxy_remove_client
  hget-leave_proxy none c f s = refl
  hget-leave_proxy (some old) c f s =
      db.hget-srem client_proxy_table f proxy_clients_set (client_bytes c) s refl

  assigned :
      (c : List ℕ) (proxy : NetworkIdentity) (old : Option NetworkIdentity) (s : db.State)
      → client_get_proxy c s ≡ done old
      → proxy.type ≡ e_proxy
      → assign_proxy_client c proxy s
        ≡ done (proxy_add_client proxy c (client_set_proxy c proxy (leave_proxy old c s)))
  unfolding assign_proxy_client
  assigned c proxy old s known is = rw (assign_proxy_client, is, known) refl

  -- The proxy that a client has is read without an exception; `proxy` is of the proxies' type, its members
  -- fit their types and its bytes are fewer than 2 ^ 64; the bytes of `c` and of `other` differ. Then
  -- `AssignProxyClient` returns, `proxy` is then the proxy of `c`, `c` stands in the set of the clients of
  -- proxies, and the proxy of `other` is what it was.
  pub assign_proxy_client_lem :
      (c other : List ℕ) (proxy : NetworkIdentity) (old : Option NetworkIdentity) (s : db.State)
      → client_get_proxy c s ≡ done old
      → proxy.type ≡ e_proxy
      → IsIdentity proxy
      → length (identity_bytes proxy) < 2 ^ 64
      → lex_same (client_bytes c) (client_bytes other) ≡ false
      → (t : db.State) × (assign_proxy_client c proxy s ≡ done t)
        × (client_get_proxy c t ≡ done (some proxy))
        × (db.sismember proxy_clients_set (client_bytes c) t ≡ true)
        × (client_get_proxy other t ≡ client_get_proxy other s)
  unfolding assign_proxy_client proxy_add_client client_set_proxy client_get_proxy identity_bytes
  assign_proxy_client_lem c other proxy old s known is fits short apart =
      let u = leave_proxy old c s in
      let v = db.hset client_proxy_table (client_bytes c) (identity_bytes proxy) u in
      let t = db.sadd proxy_clients_set (client_bytes c) v in
      let there =
        db.hget-sadd client_proxy_table (client_bytes c) proxy_clients_set (client_bytes c) v refl
        ∙ db.hget-hset client_proxy_table (client_bytes c) (identity_bytes proxy) u in
      let elsewhere =
        db.hget-sadd client_proxy_table (client_bytes other) proxy_clients_set (client_bytes c) v
          refl
        ∙ db.hget-hset_other client_proxy_table (client_bytes other) client_proxy_table
            (client_bytes c) (identity_bytes proxy) u apart
        ∙ hget-leave_proxy old c (client_bytes other) s in
      (
        t,
        assigned c proxy old s known is,
        rw
            (
              client_get_proxy,
              there,
              read-written (Identity.serialize proxy) Identity.deserialize proxy
                  (RoundTrips-identity proxy fits) short,
            )
            refl,
        db.sismember-sadd proxy_clients_set (client_bytes c) v,
        rw (client_get_proxy, elsewhere) refl,
      )
