-- ===== src/StreamerServer/Json/Effect.antt =====
-- What the calls of srvrJson.c do to the status file of a stream.
use live_streamer.Common.{◌≡◌, refl, true, Option, none, some, arith}
use live_streamer.Text.{Text, text_eq_refl}
use live_streamer.Machine.{ok}
use live_streamer.Json.{Json}
use live_streamer.Files.{Files, write, write-write}
use live_streamer.StreamerServer.Json.{
  stream_id_key, status_key, action_key, off, live, address, json_to_file, new_json_file,
  json_from_file, set_json_value, get_json_value_from_file,
}

module _ {Obj : Type 0} ⦃j : Json Obj⦄ where
  -- The record that `newJsonFile` writes.
  unfoldable pub fresh : Text → Obj
  fresh id = j.add (j.add (j.add j.new_object stream_id_key id) status_key off) action_key live

  -- The record of a stream: what its file holds, or the one that a new file gets.
  unfoldable pub current : Files Obj → Text → Obj
  current f id = elim (f.at (address id)) [ none ↦ fresh id | some o ↦ o ]

  -- The file of the stream can be written, and what it holds is an object.
  pub record Usable (f : Files Obj) (id : Text) : Type 0 where
    pub can_write : f.writable (address id) ≡ true
    pub holds_object : j.is_object (current f id) ≡ true

  new_json_file_lem :
      (f : Files Obj) (id : Text)
      → f.writable (address id) ≡ true
      → new_json_file (some id) f ≡ (ok (some (fresh id)), write f (address id) (fresh id))
  unfolding new_json_file fresh
  new_json_file_lem f id h =
      let o1 = j.add j.new_object stream_id_key id in
      let o2 = j.add o1 status_key off in
      ground (
        arith,
        j.new_object-is_object,
        j.add-is_object j.new_object stream_id_key id,
        j.add-is_object o1 status_key off,
        text_eq_refl (address id),
      )

  -- The files once `JsonFromFile` has made sure of the record.
  unfoldable pub opened : Files Obj → Text → Files Obj
  opened f id = elim (f.at (address id)) [ none ↦ write f (address id) (fresh id) | some _ ↦ f ]

  json_from_file_lem :
      (f : Files Obj) (id : Text)
      → f.writable (address id) ≡ true
      → json_from_file (some id) f ≡ (ok (some (current f id)), opened f id)
  unfolding json_from_file current opened
  json_from_file_lem f id h = go (f.at (address id)) refl
    where
      go :
          (o : Option Obj)
          → f.at (address id) ≡ o
          → json_from_file (some id) f ≡ (ok (some (current f id)), opened f id)
      go none e = rw (e, json_from_file, current, opened) (new_json_file_lem f id h)
      go (some o) e = rw (e, json_from_file, current, opened)

  writable-opened : (f : Files Obj) (id p : Text) → (opened f id).writable p ≡ f.writable p
  unfolding opened
  writable-opened f id p = ground arith

  write-opened :
      (f : Files Obj) (id : Text) (o : Obj)
      → write (opened f id) (address id) o ≡ write f (address id) o
  unfolding opened
  write-opened f id o = go (f.at (address id))
    where
      go :
          (x : Option Obj)
          → write (elim x [ none ↦ write f (address id) (fresh id) | some _ ↦ f ]) (address id) o
            ≡ write f (address id) o
      go none = write-write f (address id) (fresh id) o
      go (some r) = refl

  json_to_file_lem :
      (f : Files Obj) (id : Text) (o : Obj)
      → f.writable (address id) ≡ true
      → json_to_file o (some id) (opened f id) ≡ (ok tt, write f (address id) o)
  unfolding json_to_file
  json_to_file_lem f id o h = rw (writable-opened f id (address id), h) (cc (write-opened f id o))

  -- `setJsonValue` replaces one member of the record, whether or not the file was there.
  pub set_json_value_lem :
      (f : Files Obj) (id k v : Text)
      → Usable f id
      → set_json_value k (some v) (some id) f
        ≡ (ok tt, write f (address id) (j.add (current f id) k v))
  unfolding set_json_value
  set_json_value_lem f id k v u =
      rw (json_from_file_lem f id u.can_write, u.holds_object)
        (json_to_file_lem f id (j.add (current f id) k v) u.can_write)

  -- `getJsonValueFromFile` of a member that the record has.
  pub get_json_value_from_file_lem :
      (f : Files Obj) (id k : Text) {v : Option Text}
      → f.writable (address id) ≡ true
      → j.get_ex (current f id) k ≡ some v
      → get_json_value_from_file k (some id) f ≡ (ok v, opened f id)
  unfolding get_json_value_from_file
  get_json_value_from_file_lem f id k h e = rw (json_from_file_lem f id h, e)

  -- `getJsonValueFromFile` of a member that the record lacks writes the action "off".
  pub get_json_value_from_file_missing :
      (f : Files Obj) (id k : Text)
      → Usable f id
      → j.get_ex (current f id) k ≡ none
      → get_json_value_from_file k (some id) f
        ≡ (ok none, write f (address id) (j.add (current f id) action_key off))
  unfolding get_json_value_from_file
  get_json_value_from_file_missing f id k u e =
      rw (json_from_file_lem f id u.can_write, e, u.holds_object, writable-opened, u.can_write)
        (cc (write-opened f id (j.add (current f id) action_key off)))

  pub current-write :
      (f : Files Obj) (id : Text) (o : Obj) → current (write f (address id) o) id ≡ o
  unfolding current
  current-write f id o = rw (current, text_eq_refl (address id))

  pub opened-write :
      (f : Files Obj) (id : Text) (o : Obj)
      → opened (write f (address id) o) id ≡ write f (address id) o
  unfolding opened
  opened-write f id o = rw (opened, text_eq_refl (address id))

  pub Usable-write :
      (f : Files Obj) (id : Text) (o : Obj)
      → Usable f id
      → j.is_object o ≡ true
      → Usable (write f (address id) o) id
  Usable-write f id o u h = record {
    can_write = u.can_write;
    holds_object = rw (current-write f id o) h;
  }

  -- The calls on a file that holds a record already.
  module _ (f : Files Obj) (id k : Text) (o : Obj) (h : f.writable (address id) ≡ true) where
    pub get_json_value_written :
        {v : Option Text}
        → j.get_ex o k ≡ some v
        → get_json_value_from_file k (some id) (write f (address id) o)
          ≡ (ok v, write f (address id) o)
    get_json_value_written {v} e = rw (
      get_json_value_from_file_lem (write f (address id) o) id k {v = v} h
          (rw (current-write f id o) e),
      opened-write f id o,
    )

    pub set_json_value_written :
        (v : Text)
        → j.is_object o ≡ true
        → set_json_value k (some v) (some id) (write f (address id) o)
          ≡ (ok tt, write f (address id) (j.add o k v))
    set_json_value_written v e = rw (
      set_json_value_lem (write f (address id) o) id k v
          (record { can_write = h; holds_object = rw (current-write f id o) e }),
      current-write f id o,
      write-write f (address id) o (j.add o k v),
    )
