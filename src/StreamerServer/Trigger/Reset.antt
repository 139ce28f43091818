-- ===== src/StreamerServer/Trigger/Reset.antt =====
-- What a sweep over the status directory does.
use live_streamer.Common.{
  ◌≡◌, refl, ap, ◌∙◌, List, [], ◌∷◌, ◌++◌, take, Bool, true, false, ◌&&◌, ◌||◌, not, Option, some,
  ⊤, arith, Bool-cases, inl, inr,
}
use live_streamer.Text.{Text, codes, text_eq, text_eq_refl}
use live_streamer.Machine.{ok}
use live_streamer.Json.{Json, get_string}
use live_streamer.Files.{Files, write}
use live_streamer.StreamerServer.Json.{status_key, off}
use live_streamer.StreamerServer.Trigger.{Entry, switch_off, switch_off_all}

-- The path that the sweep makes of a name.
abbrev pub path_of : Text → Text
path_of d_name = take 63 (codes "status/" ++ d_name)

-- Whether a path belongs to a listed file.
unfoldable pub covers : List Entry → Text → Bool
covers [] q = false
covers (de ∷ rest) q = (not de.is_dir && text_eq (path_of de.d_name) q) || covers rest q

module _ {Obj : Type 0} ⦃j : Json Obj⦄ where
  -- A file that the sweep can rewrite: it holds an object, and can be opened for writing.
  pub record Rewritable (f : Files Obj) (q : Text) : Type 0 where
    pub object : Obj
    pub holds : f.at q ≡ some object
    pub is_object : j.is_object object ≡ true
    pub can_write : f.writable q ≡ true

  -- Every listed file is so.
  abbrev pub AllRewritable : Files Obj → List Entry → Type 0
  AllRewritable f [] = ⊤
  AllRewritable f (de ∷ rest) =
      (de.is_dir ≡ false → Rewritable f (path_of de.d_name)) × AllRewritable f rest

  -- The status that a path's file shows.
  abbrev pub status_at : Files Obj → Text → Option Text
  status_at f q = get_string (f.at q) status_key

  pub switch_off_lem :
      (f : Files Obj) (d : Text) (r : Rewritable f (path_of d))
      → switch_off d f ≡ (ok tt, write f (path_of d) (j.add r.object status_key off))
  unfolding switch_off
  switch_off_lem f d r = rw (r.holds, r.is_object, r.can_write)

  pub Rewritable-write :
      (f : Files Obj) (p q : Text) (o : Obj)
      → j.is_object o ≡ true
      → f.writable p ≡ true
      → Rewritable f q
      → Rewritable (write f p o) q
  Rewritable-write f p q o h w r = elim (Bool-cases (text_eq p q)) [
    | inl e ↦ record { object = o; holds = rw e; is_object = h; can_write = r.can_write }
    | inr e ↦ record {
      object = r.object;
      holds = rw e r.holds;
      is_object = r.is_object;
      can_write = r.can_write;
    }
  ]

  pub AllRewritable-write :
      (f : Files Obj) (p : Text) (o : Obj) (es : List Entry)
      → j.is_object o ≡ true
      → f.writable p ≡ true
      → AllRewritable f es
      → AllRewritable (write f p o) es
  AllRewritable-write f p o [] h w a = tt
  AllRewritable-write f p o (e ∷ es) h w a = (
    λ d. Rewritable-write f p (path_of e.d_name) o h w (a.0 d),
    AllRewritable-write f p o es h w a.1,
  )

  -- What is to be shown of the files after a sweep.
  pub record Swept (f f' : Files Obj) (es : List Entry) : Type 0 where
    pub switched : (q : Text) → covers es q ≡ true → status_at f' q ≡ some off
    pub untouched : (q : Text) → covers es q ≡ false → f'.at q ≡ f.at q

  status_at-write :
      (f : Files Obj) (p q : Text) (o : Obj)
      → j.is_object o ≡ true
      → text_eq p q ≡ true
      → status_at (write f p (j.add o status_key off)) q ≡ some off
  unfolding get_string
  status_at-write f p q o h e =
      rw (e, j.get_ex-add o status_key off status_key h, text_eq_refl status_key)

  Swept-step :
      (f : Files Obj) (o : Obj) (e : Entry) (es : List Entry) (f' : Files Obj)
      → e.is_dir ≡ false
      → j.is_object o ≡ true
      → Swept (write f (path_of e.d_name) (j.add o status_key off)) f' es
      → Swept f f' (e ∷ es)
  unfolding covers
  Swept-step f o e es f' file h sw = record {
    switched = λ q c. elim (Bool-cases (covers es q)) [
      | inl d ↦ sw.switched q d
      | inr d ↦
          ap (λ x. get_string x status_key) (sw.untouched q d)
          ∙ status_at-write f (path_of e.d_name) q o h (ground arith)
    ];
    untouched = λ q c.
        let apart : text_eq (path_of e.d_name) q ≡ false = ground arith in
        sw.untouched q (ground arith) ∙ (rw apart);
  }

  -- If every listed file holds an object and can be written, the sweep comes to its end: each of
  -- them has the status "off", and no other file has changed.
  pub switch_off_all_lem :
      (f : Files Obj) (es : List Entry)
      → AllRewritable f es
      → let (r, f') = switch_off_all es f in (r ≡ ok tt) × Swept f f' es
  unfolding switch_off_all
  switch_off_all_lem f [] a =
      (refl, record { switched = λ q h. unfold covers in cc; untouched = λ q h. refl })
  switch_off_all_lem f (e ∷ es) a = elim (Bool-cases e.is_dir) [
    | inl d ↦
        let (done, sw) = switch_off_all_lem f es a.1 in
        simp d (
          done,
          record {
            switched = λ q c. sw.switched q (unfold covers in ground arith);
            untouched = λ q c. sw.untouched q (unfold covers in ground arith);
          },
        )
    | inr d ↦
        let r = a.0 d in
        let f' = write f (path_of e.d_name) (j.add r.object status_key off) in
        let holds = j.add-is_object r.object status_key off r.is_object in
        let (done, sw) = switch_off_all_lem f' es (
          AllRewritable-write f (path_of e.d_name) (j.add r.object status_key off) es holds
            r.can_write a.1) in
        simp (d, switch_off_lem f e.d_name r)
          (done, Swept-step f r.object e es (switch_off_all es f').1 d r.is_object sw)
  ]
