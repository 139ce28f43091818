-- ===== src/StreamerServer/Registry.antt =====
-- What the status files of StreamerServer hold.
pub mod Calls
pub mod Handlers
pub mod Runs
pub mod Board
pub mod Sweep
pub mod Deeds
pub mod Answers
pub mod Refines
use live_streamer.Common.{
  ◌≡◌, refl, subst, Bool, true, false, Option, none, some, ⊤, Bool-cases, ◌⊎◌, inl, inr, arith,
}
use live_streamer.Text.{Text, codes, text_eq, text_eq_refl, eq_of_text_eq}
use live_streamer.Json.{Json}
use live_streamer.Files.{Files, write}
use live_streamer.StreamerServer.Json.{stream_id_key, status_key, action_key, address}

-- The record of the stream `file` may get any text but for its name, which has to be `file`.
abbrev pub Fits : Text → Option Text → Option Text → Type 0
Fits k value file = (text_eq k stream_id_key ≡ false) ⊎ ((k ≡ stream_id_key) × (value ≡ file))

pub Fits-status : (value file : Option Text) → Fits status_key value file
unfolding codes text_eq
Fits-status value file = inl refl

pub Fits-action : (value file : Option Text) → Fits action_key value file
unfolding codes text_eq
Fits-action value file = inl refl

module _ {Obj : Type 0} ⦃j : Json Obj⦄ where
  abbrev pub HasText : Obj → Text → Type 0
  HasText o k = (v : Text) × (j.get_ex o k ≡ some (some v))

  -- A file at `p` holds an object with a status, an action and the name of a stream whose status
  -- file it is.
  pub record IsRecord (p : Text) (o : Obj) : Type 0 where
    pub is_object : j.is_object o ≡ true
    pub stream : Text
    pub names_stream : j.get_ex o stream_id_key ≡ some (some stream)
    pub at_address : address stream ≡ p
    pub has_status : HasText o status_key
    pub has_action : HasText o action_key

  -- Every file is a record, and the rights to write are the given ones.
  pub record IsRegistry (rights : Text → Bool) (f : Files Obj) : Type 0 where
    pub all_records : (p : Text) (o : Obj) → f.at p ≡ some o → IsRecord p o
    pub same_rights : f.writable ≡ rights

  pub HasText-add_self : (o : Obj) (k v : Text) → j.is_object o ≡ true → HasText (j.add o k v) k
  HasText-add_self o k v h = (v, rw (j.get_ex-add o k v k h, text_eq_refl k))

  pub HasText-add :
      (o : Obj) (k v q : Text) → j.is_object o ≡ true → HasText o q → HasText (j.add o k v) q
  HasText-add o k v q h (w, e) = elim (Bool-cases (text_eq k q)) [
    | inl same ↦ (v, rw (j.get_ex-add o k v q h, same))
    | inr other ↦ (w, rw (j.get_ex-add o k v q h, other) e)
  ]

  pub add-IsRecord :
      (p : Text) (o : Obj) (k v : Text)
      → text_eq k stream_id_key ≡ false
      → IsRecord p o
      → IsRecord p (j.add o k v)
  add-IsRecord p o k v other r = record {
    is_object = j.add-is_object o k v r.is_object;
    stream = r.stream;
    names_stream = rw (j.get_ex-add o k v stream_id_key r.is_object, other) r.names_stream;
    at_address = r.at_address;
    has_status = HasText-add o k v status_key r.is_object r.has_status;
    has_action = HasText-add o k v action_key r.is_object r.has_action;
  }

  pub name-IsRecord :
      (id : Text) (o : Obj)
      → IsRecord (address id) o
      → IsRecord (address id) (j.add o stream_id_key id)
  name-IsRecord id o r = record {
    is_object = j.add-is_object o stream_id_key id r.is_object;
    stream = id;
    names_stream =
        rw (j.get_ex-add o stream_id_key id stream_id_key r.is_object, text_eq_refl stream_id_key);
    at_address = refl;
    has_status = HasText-add o stream_id_key id status_key r.is_object r.has_status;
    has_action = HasText-add o stream_id_key id action_key r.is_object r.has_action;
  }

  at-write_same :
      (f : Files Obj) (p q : Text) (o : Obj) {x : Obj}
      → text_eq p q ≡ true
      → (write f p o).at q ≡ some x
      → o ≡ x
  at-write_same f p q o h e = ground arith

  at-write_other :
      (f : Files Obj) (p q : Text) (o : Obj) {x : Obj}
      → text_eq p q ≡ false
      → (write f p o).at q ≡ some x
      → f.at q ≡ some x
  at-write_other f p q o h e = ground arith

  pub write-IsRegistry :
      (rights : Text → Bool) (f : Files Obj) (p : Text) (o : Obj)
      → IsRecord p o
      → IsRegistry rights f
      → IsRegistry rights (write f p o)
  write-IsRegistry rights f p o r h = record {
    all_records = λ q x e. elim (Bool-cases (text_eq p q)) [
      | inl same ↦
          subst (λ y. IsRecord q y) (at-write_same f p q o same e)
            (subst (λ y. IsRecord y o) (eq_of_text_eq p q same) r)
      | inr other ↦ h.all_records q x (at-write_other f p q o other e)
    ];
    same_rights = h.same_rights;
  }

-- What is read from the file at `p`.
module _ {Obj : Type 0} ⦃j : Json Obj⦄ where
  abbrev pub Held : Text → Option Obj → Type 0
  Held p none = ⊤
  Held p (some o) = IsRecord p o
