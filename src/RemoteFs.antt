-- ===== src/RemoteFs.antt =====
-- The file system of sylan/p3/main.go: the text of sylan/p2/dfs/fs.go, with the calls of leveldb replaced by
-- those of the client of the chunk server. Each operation is the one of Dfs over a store behind the server;
-- what Init does is its own. The chunk server and the ways in which calls of it fare are a `Remote`.
pub mod Lost
pub mod LostFlush
mod Examples
use cmsc818e.Prelude.{ℕ, String, List, Option, none, some, Bool}
use cmsc818e.Dfs.Chunks.{Bytes}
use cmsc818e.Dfs.State.{Ptr, Attr, Node, Cmd, Reply, ◌>>=◌}
use cmsc818e.Dfs.Ops.{Dirent, Changes}
use cmsc818e.Dfs.Wire.{Env}
use cmsc818e.Dfs.Wire
use cmsc818e.Dfs.Load
use cmsc818e.Dfs.Handlers
use cmsc818e.Dfs.Save
use cmsc818e.ChunkServer.{Delivery, chunk_put, chunk_get}

-- The leveldb of the chunk server, and how a call of the client that is made in a state of it fares.
pub record Remote (S : Type 0) : Type 0 where
  pub db_put : S → String → Bytes → Option S
  pub db_get : S → String → Option Bytes
  pub db_keys : S → List String
  pub put_way : S → String → Bytes → Delivery
  pub get_way : S → String → Delivery

module _ {S : Type 0} (server : Remote S) where
  -- putData, whose callers drop the error
  unfoldable pub put_data : String → Bytes → S → S
  put_data key value s =
      (chunk_put server.db_put server.db_get server.db_keys (server.put_way s key value) s key
        value).1

  -- getData
  unfoldable pub get_data : S → String → Option Bytes
  get_data s key = chunk_get server.db_put server.db_get server.db_keys (server.get_way s key) s key

  -- The libraries with the chunk server in the place of leveldb.
  abbrev pub remote_env : Env S → Env S
  remote_env libs = record libs { db_put = put_data; db_get = get_data }

module _ {S : Type 0} (server : Remote S) (libs : Env S) where
  unfoldable pub get_node : String → Cmd S (Option Ptr)
  get_node key = Wire.get_node (remote_env server libs) key

  unfoldable pub put_node : Node → Cmd S (Unit {0})
  put_node n = Wire.put_node (remote_env server libs) n

  unfoldable pub load_all_data : Ptr → Cmd S (Unit {0})
  load_all_data p = Load.load_all_data (remote_env server libs) p

  unfoldable pub update : Option Ptr → Cmd S (Unit {0})
  update n = Load.update (remote_env server libs) n

  unfoldable pub lookup : Ptr → String → Cmd S (Reply Ptr)
  lookup p name = Handlers.lookup (remote_env server libs) p name

  unfoldable pub read_dir_all : Ptr → Cmd S (List Dirent)
  read_dir_all p = Handlers.read_dir_all (remote_env server libs) p

  unfoldable pub getattr : Ptr → Cmd S Attr
  getattr p = Handlers.getattr (remote_env server libs) p

  unfoldable pub setattr : Ptr → Changes → Cmd S Attr
  setattr p c = Handlers.setattr (remote_env server libs) p c

  unfoldable pub mkdir : Ptr → String → ℕ → Cmd S (Reply Ptr)
  mkdir p name mode = Handlers.mkdir (remote_env server libs) p name mode

  unfoldable pub create : Ptr → String → ℕ → Cmd S (Reply Ptr)
  create p name mode = Handlers.create (remote_env server libs) p name mode

  unfoldable pub read_all : Ptr → Cmd S Bytes
  read_all p = Handlers.read_all (remote_env server libs) p

  unfoldable pub write : Ptr → (offset : ℕ) → Bytes → Cmd S (Reply ℕ)
  write p offset new = Handlers.write (remote_env server libs) p offset new

  unfoldable pub go_flush : Ptr → Cmd S (Unit {0})
  go_flush p = Handlers.go_flush (remote_env server libs) p

  unfoldable pub flush : Ptr → Cmd S (Unit {0})
  flush p = Handlers.flush (remote_env server libs) p

  unfoldable pub link : Ptr → String → Ptr → Cmd S (Reply Ptr)
  link p name old = Handlers.link (remote_env server libs) p name old

  unfoldable pub remove : Ptr → String → (dir : Bool) → Cmd S (Reply (Unit {0}))
  remove p name dir = Handlers.remove (remote_env server libs) p name dir

  unfoldable pub symlink : Ptr → String → (target : Bytes) → Cmd S (Reply Ptr)
  symlink p name target = Handlers.symlink (remote_env server libs) p name target

  unfoldable pub rename :
      Ptr → (old : String) → (dir : Ptr) → (new : String) → Cmd S (Reply (Unit {0}))
  rename p old dir new = Handlers.rename (remote_env server libs) p old dir new

  unfoldable pub traversal_save : ℕ → Ptr → Cmd S (Unit {0})
  traversal_save fuel p = Save.traversal_save (remote_env server libs) fuel p

  unfoldable pub put_head : Cmd S (Unit {0})
  put_head = Save.put_head (remote_env server libs)

  unfoldable pub flush_round : ℕ → Cmd S (Unit {0})
  flush_round fuel = Save.flush_round (remote_env server libs) fuel

  unfoldable pub get_head : Cmd S (Option Ptr × ℕ)
  get_head = Save.get_head (remote_env server libs)

  unfoldable pub get_path_node : Option Ptr → List String → Cmd S (Option Ptr)
  get_path_node p path = Save.get_path_node (remote_env server libs) p path

  unfoldable pub get_timed_version : ℕ → (tm : ℕ) → Ptr → Cmd S (Option Ptr)
  get_timed_version fuel tm p = Save.get_timed_version (remote_env server libs) fuel tm p

  -- What Init does before it mounts. It does not look at its argument `ro`.
  unfoldable pub init_fs : ℕ → (read_only : Bool) → (tm : Option ℕ) → Cmd S (Unit {0})
  unfolding get_head
  init_fs fuel ro tm = do
    (head, next_ind) ← get_head
    Save.use_head (remote_env server libs) fuel tm head next_ind
