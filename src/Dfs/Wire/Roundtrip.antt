-- ===== src/Dfs/Wire/Roundtrip.antt =====
-- A node that is put into the store and got back.
use cmsc818e.Prelude.{
  String, ◌+◌, ◌≡◌, refl, ap, ◌∙◌, true, some, ok, if◌then◌else◌, str_eq, str_eq_iff,
}
use cmsc818e.Dfs.Chunks.{Bytes}
use cmsc818e.Dfs.State.{Node, Fs, zero_node, lift, set_cell, ◌>>=◌}
use cmsc818e.Dfs.State.Heap.{set_cell_self}
use cmsc818e.Dfs.Wire.{
  Env, import_node, export_node, decode_message, decode_node, alloc_found, get_node, put_bytes,
  put_node, next_order,
}

-- What the store keeps of a node.
abbrev pub stored : Node → Node
stored n = record zero_node {
  name = n.name;
  attrs = n.attrs;
  version = n.version;
  prev_sig = n.prev_sig;
  child_sigs = n.child_sigs;
  data_blocks = n.data_blocks;
  sig = n.sig;
  load_from_db = true;
}

module _ {S : Type 0} (env : Env S)
    (get-put : (k j : String) (v : Bytes) (db : S)
      → env.db_get (env.db_put k v db) j ≡ (if str_eq k j then some v else env.db_get db j)) where
  decode_node-export_node :
      (n : Node) (bytes : Bytes)
      → env.unmarshal bytes ≡ some (export_node n)
      → decode_node env n.sig (some bytes) ≡ ok (some (stored n))
  unfolding decode_node import_node export_node
  decode_node-export_node n bytes h = ap (λ o. decode_message env n.sig o) h

  -- Where a get returns the last value put, and the bytes of a node unmarshal to what was
  -- marshalled: the node is put under its signature, and getNode of this signature makes a new, unloaded node with
  -- the name, attributes, version, previous signature, kids' signatures and blocks of the node.
  pub get_node-put_node :
      (n : Node) (bytes : Bytes) (s : Fs S)
      → env.marshal (s.orders 0) (export_node n) ≡ some bytes
      → env.unmarshal bytes ≡ some (export_node n)
      → (t u : Fs S) × (put_node env n s ≡ ok (tt, t))
        × (get_node env n.sig t ≡ ok (some s.next_ptr, u))
        × (u.heap s.next_ptr ≡ some (stored n))
  unfolding put_node next_order get_node
  get_node-put_node n bytes s h back =
      let db = env.db_put n.sig bytes s.db in
      let drawn : Fs S = record s { orders = λ i. s.orders (i + 1) } in
      let t : Fs S = record drawn { db = db } in
      let hit = (str_eq_iff n.sig n.sig).1 refl in
      let found : env.db_get db n.sig ≡ some bytes =
        get-put n.sig n.sig bytes s.db
        ∙ ap (λ b. if b then some bytes else env.db_get s.db n.sig) hit in
      (
        t,
        record t { heap = set_cell s.heap s.next_ptr (stored n); next_ptr = s.next_ptr + 1 },
        ap (λ o. put_bytes env n.sig o drawn) h,
        ap (λ r. (lift r >>= alloc_found env) t)
            (ap (λ o. decode_node env n.sig o) found ∙ decode_node-export_node n bytes back),
        set_cell_self s.heap s.next_ptr (stored n),
      )
