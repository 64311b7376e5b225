-- ===== src/Server/Closing.antt =====
-- The connections to peers over the life of a server: kept by every request, and closed by Close.
use mathlib.Core.List.{foldl}
use time_series_cardinality.Base.{
  ℕ, ◌≡◌, sym, ◌∙◌, ap, inl, inr, some, List, [], ◌∷◌, Bytes, bytes_eq, ◌==◌, Bool-cases,
  Option-cases, bytes_eqb_iff, subst,
}
use time_series_cardinality.Map.{lookup, find, lookup-insert}
use time_series_cardinality.External.{Murmur}
use time_series_cardinality.Errors.{ok, Result-cases}
use time_series_cardinality.Sketch.{SketchOps, Algorithm}
use time_series_cardinality.Store.{Badger}
use time_series_cardinality.Server.{
  Server, Network, Config, note, finish, Handled, set_dial_options, close, get_peer_client,
  add_method, batch_add_method, query_method, add_body, batch_add_body, query_body, add, batch_add,
  query,
}
use time_series_cardinality.Server.Preserved.{
  IsKept, add_body-Kept, batch_add_body-Kept, query_body-Kept,
}
use time_series_cardinality.Server.Peers.{get_peer_client_known, get_peer_client_kept}

module _ {W : Type 0} (net : Network W) where
  -- A request to the service, or a call of SetDialOptions.
  pub data Request : Type 0 where
    add_request : Bytes → ℕ → Request
    batch_add_request : Bytes → List ℕ → Request
    query_request : Bytes → Request
    options_request : List net.DialOption → Request

  -- Closing some connections one after another reaches each of them.
  closed :
      (Q : W → Type 0) (c : net.ClientConn) (addr : Bytes) (l : List (Bytes × net.ClientConn))
      (w : W)
      → ((v : W) → Q (net.close_conn c v))
      → ((d : net.ClientConn) (v : W) → Q v → Q (net.close_conn d v))
      → find addr l ≡ some c
      → Q (foldl (λ (v : W) (entry : Bytes × net.ClientConn). net.close_conn entry.1 v) w l)
  unfolding find
  closed Q c addr [] w here stays p = cc p
  closed Q c addr ((k, d) ∷ l) w here stays p = elim (Bool-cases (k == addr)) [
    | inr other ↦ closed Q c addr l (net.close_conn d w) here stays (rw other at p)
    | inl same ↦
        let hit : d ≡ c = cc (rw same at p) in
        after l (net.close_conn d w) (subst (λ x. Q (net.close_conn x w)) (sym hit) (here w))
  ]
    where
      after :
          (l : List (Bytes × net.ClientConn)) (w : W)
          → Q w
          → Q (foldl (λ (v : W) (entry : Bytes × net.ClientConn). net.close_conn entry.1 v) w l)
      after [] w q = q
      after ((k, d) ∷ l) w q = after l (net.close_conn d w) (stays d w q)

module _ {o : SketchOps} {alg : Algorithm o} {Db : Type 0} {W : Type 0} (net : Network W) where
  -- The second server has the connections of the first, at the same addresses.
  abbrev Grows : Server o alg Db net → Server o alg Db net → Type 0
  Grows s t =
      (addr : Bytes) (c : net.ClientConn)
      → lookup addr s.conns ≡ some c
      → lookup addr t.conns ≡ some c

  get_peer_client-Grows :
      (addr : Bytes) (s : Server o alg Db net) → Grows s (get_peer_client o alg Db net addr s).1
  unfolding get_peer_client
  get_peer_client-Grows addr s j c known = elim (Option-cases (lookup addr s.conns)) [
    | inr (d, there) ↦ rw (there, get_peer_client) known
    | inl absent ↦ elim (Result-cases (net.dial addr (net.insecure ∷ s.dial_opts) s.world).0) [
      | inr (x, failed) ↦ rw (absent, failed, get_peer_client) known
      | inl (d, dialled) ↦
          rw (absent, dialled, get_peer_client)
            (elim (Bool-cases (addr == j)) [
              | inl same ↦ cc (known, absent, (bytes_eqb_iff addr j).0 same)
              | inr other ↦ rw other at (lookup-insert addr j d s.conns) ∙ known
            ])
    ]
  ]

  Grows-IsKept : IsKept o alg Db net Grows
  Grows-IsKept = record {
    nothing = λ s addr c known. known;
    steps = λ s t u h k addr c known. k addr c (h addr c known);
    noted = λ e s q addr c known. unfold note in known;
    called = λ w s addr c known. known;
    written = λ e st s addr c known. known;
    dialled = get_peer_client-Grows;
  }

  finish-Grows :
      {A : Type 0} (method : Bytes) (p : Handled A × Server o alg Db net) (s : Server o alg Db net)
      → Grows s p.1
      → Grows s (finish o alg Db net method p).1
  unfolding finish note
  finish-Grows method ((r, status), t) s h = h

  module _ (badger : Badger Db) (m : Murmur) (config : Config W) where
    -- The server after a request, and after several.
    unfoldable pub served : Request net → Server o alg Db net → Server o alg Db net
    unfolding add batch_add query set_dial_options
    served (add_request group id) s = (add o alg Db net badger m config group id s).1
    served (batch_add_request group ids) s = (batch_add o alg Db net badger m config group ids s).1
    served (query_request group) s = (query o alg Db net badger m config group s).1
    served (options_request opts) s = set_dial_options o alg Db net opts s

    unfoldable pub all_served : List (Request net) → Server o alg Db net → Server o alg Db net
    unfolding served
    all_served [] s = s
    all_served (r ∷ rs) s = all_served rs (served r s)

    served-Grows : (r : Request net) (s : Server o alg Db net) → Grows s (served r s)
    unfolding served add batch_add query set_dial_options
    served-Grows (add_request group id) s =
        finish-Grows add_method (add_body o alg Db net badger m config group id s) s
          (add_body-Kept o alg Db net badger m config Grows-IsKept group id s)
    served-Grows (batch_add_request group ids) s =
        finish-Grows batch_add_method (batch_add_body o alg Db net badger m config group ids s) s
          (batch_add_body-Kept o alg Db net badger m config Grows-IsKept group ids s)
    served-Grows (query_request group) s =
        finish-Grows query_method (query_body o alg Db net badger m config group s) s
          (query_body-Kept o alg Db net badger m config Grows-IsKept group s)
    served-Grows (options_request opts) s = λ addr c known. known

    all_served-Grows :
        (rs : List (Request net)) (s : Server o alg Db net) → Grows s (all_served rs s)
    unfolding all_served
    all_served-Grows [] s addr c known = known
    all_served-Grows (r ∷ rs) s addr c known =
        all_served-Grows rs (served r s) addr c (served-Grows r s addr c known)

    -- A connection that the server got for a peer, dialled or not, is the one it has for that peer
    -- after whatever requests and dial options, and Close then closes it: whatever holds once it is closed, and is
    -- not undone by closing others, holds after Close.
    pub close-all_served :
        (Q : W → Type 0) (addr : Bytes) (c : net.ClientConn) (rs : List (Request net))
        (s : Server o alg Db net)
        → ((w : W) → Q (net.close_conn c w))
        → ((d : net.ClientConn) (w : W) → Q w → Q (net.close_conn d w))
        → (get_peer_client o alg Db net addr s).0 ≡ ok c
        → let t = all_served rs (get_peer_client o alg Db net addr s).1 in
          ((get_peer_client o alg Db net addr t).0 ≡ ok c) × Q (close o alg Db net t).world
    unfolding close
    close-all_served Q addr c rs s here stays got =
        let s' = (get_peer_client o alg Db net addr s).1 in
        let t = all_served rs s' in
        let known : lookup addr t.conns ≡ some c =
          all_served-Grows rs s' addr c (get_peer_client_kept o alg Db net addr s c got) in
        (
          ap (λ r. r.0) (get_peer_client_known o alg Db net addr t known),
          closed net Q c addr t.conns.entries t.world here stays (unfold lookup in known),
        )
