-- ===== src/StreamerServer/Registry/Calls.antt =====
-- The calls of srvrJson.c, and the sweep of main.c, keep every status file a record of its stream.
use live_streamer.Common.{
  ◌≡◌, refl, sym, subst, Bool, Option, none, some, Bool-cases, inl, inr, take, ◌++◌, List, [], ◌∷◌,
}
use live_streamer.Text.{Text, codes, text_eq}
use live_streamer.Machine.{M}
use live_streamer.Machine.Keeps.{Keeps, Any, ◌▸◌, Keeps-pure, Keeps-crash, Keeps-if, Keeps-weaken}
use live_streamer.Json.{Json}
use live_streamer.Files.{Files, to_file, from_file, object_add}
use live_streamer.StreamerServer.Json.{
  stream_id_key, status_key, action_key, off, live, address, json_file_with_addr, json_to_file,
  new_json_file, or_new_file, json_from_file, set_json_value, member, value_or_off,
  get_json_value_from_file,
}
use live_streamer.StreamerServer.Json.Effect.{fresh}
use live_streamer.StreamerServer.Trigger.{Entry, switch_off, switch_off_all}
use live_streamer.StreamerServer.Registry.{
  Fits, Fits-action, IsRecord, IsRegistry, Held, HasText-add, HasText-add_self, add-IsRecord,
  name-IsRecord, write-IsRegistry,
}

module _ {Obj : Type 0} ⦃j : Json Obj⦄ (rights : Text → Bool) where
  -- A call that keeps the files a registry.
  abbrev pub Kept : {A : Type 0} → M (Files Obj) A → (A → Type 0) → Type 0
  Kept m Q = Keeps (IsRegistry rights) m Q

  to_file-Keeps : (p : Text) (o : Obj) → IsRecord p o → Kept (to_file p o) Any
  unfolding to_file
  to_file-Keeps p o r = record {
    after = λ f h. elim (Bool-cases (f.writable p)) [
      | inl can ↦ rw can (write-IsRegistry rights f p o r h)
      | inr cannot ↦ rw cannot h
    ];
    returns = λ f h a e. tt;
  }

  held : (p : Text) (f : Files Obj) → IsRegistry rights f → (x : Option Obj) → f.at p ≡ x → Held p x
  held p f h none e = tt
  held p f h (some o) e = h.all_records p o e

  from_file-Keeps : (p : Text) → Kept (from_file p) (Held p)
  unfolding from_file
  from_file-Keeps p = record { after = λ f h. h; returns = λ f h a e. held p f h a (cc) }

  json_to_file-Keeps :
      (o : Obj) (file : Option Text)
      → ((id : Text) → file ≡ some id → IsRecord (address id) o)
      → Kept (json_to_file o file) Any
  unfolding json_to_file json_file_with_addr
  json_to_file-Keeps o none r = Keeps-crash
  json_to_file-Keeps o (some id) r = to_file-Keeps (address id) o (r id refl)

  pub fresh-IsRecord : (id : Text) → IsRecord (address id) (fresh {Obj = Obj} id)
  unfolding fresh codes text_eq
  fresh-IsRecord id =
      let o1 = j.add j.new_object stream_id_key id in
      let o2 = j.add o1 status_key off in
      let h1 = j.add-is_object j.new_object stream_id_key id j.new_object-is_object in
      let h2 = j.add-is_object o1 status_key off h1 in
      record {
        is_object = j.add-is_object o2 action_key live h2;
        stream = id;
        names_stream = rw (
          j.get_ex-add o2 action_key live stream_id_key h2,
          j.get_ex-add o1 status_key off stream_id_key h1,
          j.get_ex-add j.new_object stream_id_key id stream_id_key j.new_object-is_object,
        );
        at_address = refl;
        has_status =
            HasText-add o2 action_key live status_key h2 (HasText-add_self o1 status_key off h1);
        has_action = HasText-add_self o2 action_key live h2;
      }

  -- What `object_add` returns.
  record Added (x : Option Obj) (k : Text) (v : Option Text) (o' : Obj) : Type 0 where
    old : Obj
    value : Text
    was : x ≡ some old
    puts : v ≡ some value
    becomes : o' ≡ j.add old k value

  object_add-Keeps :
      (x : Option Obj) (k : Text) (v : Option Text) → Kept (object_add x k v) (Added x k v)
  unfolding object_add
  object_add-Keeps none k v = Keeps-crash
  object_add-Keeps (some o) k none = Keeps-crash
  object_add-Keeps (some o) k (some w) =
      Keeps-if (j.is_object o)
        (Keeps-pure (j.add o k w)
          (record { old = o; value = w; was = refl; puts = refl; becomes = refl }))
        Keeps-crash

  fresh_made :
      (id : Text) {o1 o2 o3 : Obj} {i : Text}
      → Added (some j.new_object) stream_id_key (some id) o1
      → Added (some o1) status_key (some off) o2
      → Added (some o2) action_key (some live) o3
      → some id ≡ some i
      → IsRecord (address i) o3
  unfolding fresh
  fresh_made id {o3 = o3} {i = i} a1 a2 a3 e =
      let made : o3 ≡ fresh i = cc in
      subst (λ o. IsRecord (address i) o) (sym made) (fresh-IsRecord i)

  new_json_file-Keeps : (id : Text) → Kept (new_json_file (some id)) (Held (address id))
  unfolding new_json_file json_file_with_addr
  new_json_file-Keeps id = object_add-Keeps (some j.new_object) stream_id_key (some id) ▸ λ o1 a1.
      object_add-Keeps (some o1) status_key (some off) ▸ λ o2 a2.
      object_add-Keeps (some o2) action_key (some live) ▸ λ o3 a3.
      json_to_file-Keeps o3 (some id) (λ i e. fresh_made id a1 a2 a3 e) ▸ λ u q.
      from_file-Keeps (address id)

  or_new_file-Keeps :
      (x : Option Obj) (id : Text)
      → Held (address id) x
      → Kept (or_new_file x (some id)) (Held (address id))
  unfolding or_new_file
  or_new_file-Keeps none id h = new_json_file-Keeps id
  or_new_file-Keeps (some o) id h = Keeps-pure (some o) h

  -- What is read for the stream `file`.
  abbrev HeldBy : Option Text → Option Obj → Type 0
  HeldBy file x = (id : Text) → file ≡ some id → Held (address id) x

  json_from_file-Keeps : (file : Option Text) → Kept (json_from_file file) (HeldBy file)
  unfolding json_from_file json_file_with_addr
  json_from_file-Keeps none = Keeps-crash
  json_from_file-Keeps (some id) = from_file-Keeps (address id) ▸ λ x h.
      Keeps-weaken (λ y q i e. subst (λ n. Held (address n) y) (cc) q) (or_new_file-Keeps x id h)

  Fits-IsRecord :
      (o : Obj) (k v id : Text)
      → Fits k (some v) (some id)
      → IsRecord (address id) o
      → IsRecord (address id) (j.add o k v)
  Fits-IsRecord o k v id (inl other) r = add-IsRecord (address id) o k v other r
  Fits-IsRecord o k v id (inr (e, e')) r =
      let same : v ≡ id = cc in rw (e, same) (name-IsRecord id o r)

  Added-IsRecord :
      (x : Option Obj) (k : Text) (value file : Option Text) {o' : Obj}
      → Fits k value file
      → HeldBy file x
      → Added x k value o'
      → (id : Text) → file ≡ some id
      → IsRecord (address id) o'
  Added-IsRecord x k value file fits reads a id e =
      let was = subst (λ y. Held (address id) y) a.was (reads id e) in
      let put = subst (λ y. Fits k y (some id)) a.puts (subst (λ y. Fits k value y) e fits) in
      subst (λ y. IsRecord (address id) y) (sym a.becomes)
        (Fits-IsRecord a.old k a.value id put was)

  pub set_json_value-Keeps :
      (k : Text) (value file : Option Text)
      → Fits k value file
      → Kept (set_json_value k value file) Any
  unfolding set_json_value
  set_json_value-Keeps k value file fits = json_from_file-Keeps file ▸ λ x reads.
      object_add-Keeps x k value ▸ λ o' a.
      json_to_file-Keeps o' file (Added-IsRecord x k value file fits reads a)

  value_or_off-Keeps :
      (m : Option (Option Text)) (x : Option Obj) (file : Option Text)
      → HeldBy file x
      → Kept (value_or_off m x file) Any
  unfolding value_or_off
  value_or_off-Keeps none x file reads = object_add-Keeps x action_key (some off) ▸ λ o' a.
      json_to_file-Keeps o' file
        (Added-IsRecord x action_key (some off) file (Fits-action (some off) file) reads a)
      ▸ λ u q. Keeps-pure none tt
  value_or_off-Keeps (some v) x file reads = Keeps-pure v tt

  pub get_json_value_from_file-Keeps :
      (k : Text) (file : Option Text) → Kept (get_json_value_from_file k file) Any
  unfolding get_json_value_from_file
  get_json_value_from_file-Keeps k file =
      json_from_file-Keeps file ▸ λ x reads. value_or_off-Keeps (member x k) x file reads

  switched-IsRecord :
      (p : Text) (o : Obj) (v : Text) → IsRecord p o → IsRecord p (j.add o status_key v)
  unfolding codes text_eq
  switched-IsRecord p o v r = add-IsRecord p o status_key v refl r

  switch_off-Keeps : (d_name : Text) → Kept (switch_off d_name) Any
  unfolding switch_off
  switch_off-Keeps d_name =
      let fn = take 63 (codes "status/" ++ d_name) in
      from_file-Keeps fn ▸ λ x h. object_add-Keeps x status_key (some off) ▸ λ o' a.
      to_file-Keeps fn o' (
        subst (λ y. IsRecord fn y) (sym a.becomes)
          (switched-IsRecord fn a.old a.value (subst (λ y. Held fn y) a.was h)))

  pub switch_off_all-Keeps : (entries : List Entry) → Kept (switch_off_all entries) Any
  unfolding switch_off_all
  switch_off_all-Keeps [] = Keeps-pure tt tt
  switch_off_all-Keeps (de ∷ rest) =
      let others = switch_off_all-Keeps rest in
      Keeps-if de.is_dir others (switch_off-Keeps de.d_name ▸ λ u q. others)
