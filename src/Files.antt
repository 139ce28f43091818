-- ===== src/Files.antt =====
-- The files that the programs read and write through json-c: `json_object_from_file` and
-- `json_object_to_file`. A file is represented by the value that reading it gives; a file that is
-- absent or holds no JSON text is `none`.
use live_streamer.Common.{◌≡◌, Bool, Option, none, some, ⊤, if◌then◌else◌, fun_ext, arith}
use live_streamer.Text.{Text, text_eq}
use live_streamer.Machine.{M, pure, crash, ok}
use live_streamer.Json.{Json}

pub record Files (Obj : Type 0) : Type 0 where
  pub at : Text → Option Obj
  -- Whether the path can be opened for writing.
  pub writable : Text → Bool

module _ {Obj : Type 0} where
  abbrev pub write : Files Obj → Text → Obj → Files Obj
  write f p o = record f { at = λ q. if text_eq p q then some o else f.at q }

  -- A write that fails is reported by a result that no caller reads.
  unfoldable pub to_file : Text → Obj → M (Files Obj) ⊤
  to_file p o f = (ok tt, if f.writable p then write f p o else f)

  unfoldable pub from_file : Text → M (Files Obj) (Option Obj)
  from_file p f = (ok (f.at p), f)

  pub write-write :
      (f : Files Obj) (p : Text) (o o' : Obj) → write (write f p o) p o' ≡ write f p o'
  write-write f p o o' i = record {
    at = fun_ext (λ q. write_at p q (f.at q)) i;
    writable = f.writable;
  }
    where
      write_at :
          (p q : Text) (x : Option Obj)
          → (if text_eq p q then some o' else if text_eq p q then some o else x)
            ≡ (if text_eq p q then some o' else x)
      write_at p q x = ground arith

-- `json_object_object_add(o, k, json_object_new_string(v))`: `strlen` reads through `v`, and the
-- addition asserts that `o` is an object.
module _ {S Obj : Type 0} ⦃j : Json Obj⦄ where
  unfoldable pub object_add : Option Obj → Text → Option Text → M S Obj
  object_add none k v = crash
  object_add (some o) k none = crash
  object_add (some o) k (some v) = if j.is_object o then pure (j.add o k v) else crash
