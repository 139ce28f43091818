-- ===== src/StreamerServer/Registry/Sweep.antt =====
-- What the sweep of main.c does to a record, member by member.
use live_streamer.Common.{
  ◌≡◌, refl, ◌∙◌, subst, List, [], ◌∷◌, Bool, true, Option, none, some, Bool-cases, inl, inr,
  if◌then◌else◌,
}
use live_streamer.Text.{Text, codes, text_eq, eq_of_text_eq}
use live_streamer.Json.{Json}
use live_streamer.Files.{Files, write}
use live_streamer.StreamerServer.Json.{status_key, action_key, off}
use live_streamer.StreamerServer.Trigger.{Entry, switch_off_all}
use live_streamer.StreamerServer.Trigger.Reset.{
  path_of, covers, AllRewritable, AllRewritable-write, switch_off_lem,
}

module _ {Obj : Type 0} ⦃j : Json Obj⦄ where
  -- The record after a sweep that does or does not list its file.
  pub record Switched (listed : Bool) (o : Obj) (x : Option Obj) : Type 0 where
    pub object : Obj
    pub holds : x ≡ some object
    pub same_action : j.get_ex object action_key ≡ j.get_ex o action_key
    pub new_status :
        j.get_ex object status_key ≡ (if listed then some (some off) else j.get_ex o status_key)

  same_object :
      (f : Files Obj) (p q : Text) (o r : Obj)
      → text_eq p q ≡ true
      → f.at q ≡ some o
      → f.at p ≡ some r
      → r ≡ o
  same_object f p q o r e h k =
      let same = eq_of_text_eq p q e in cc (subst (λ x. f.at x ≡ some r) same k)

  -- A record that the sweep has rewritten once stays switched off.
  rewritten-Switched :
      (o : Obj) (x : Option Obj) (listed : Bool)
      → j.is_object o ≡ true
      → Switched listed (j.add o status_key off) x
      → Switched true o x
  unfolding codes text_eq
  rewritten-Switched o x listed h sw = record {
    object = sw.object;
    holds = sw.holds;
    same_action = sw.same_action ∙ j.get_ex-add o status_key off action_key h;
    new_status =
        let first = j.get_ex-add o status_key off status_key h in
        elim (Bool-cases listed) [
          | inl l ↦ sw.new_status ∙ rw l
          | inr l ↦ sw.new_status ∙ rw l first
        ];
  }

  pub switch_off_all-Switched :
      (f : Files Obj) (es : List Entry) (q : Text) (o : Obj)
      → AllRewritable f es
      → f.at q ≡ some o
      → Switched (covers es q) o ((switch_off_all es f).1.at q)
  unfolding switch_off_all covers
  switch_off_all-Switched f [] q o all h = record {
    object = o;
    holds = h;
    same_action = refl;
    new_status = refl;
  }
  switch_off_all-Switched f (e ∷ es) q o all h = elim (Bool-cases e.is_dir) [
    | inl dir ↦ rw dir (switch_off_all-Switched f es q o all.1 h)
    | inr file ↦
        let r = all.0 file in
        let p = path_of e.d_name in
        let o1 = j.add r.object status_key off in
        let all1 =
          AllRewritable-write f p o1 es (j.add-is_object r.object status_key off r.is_object)
            r.can_write all.1 in
        let after = (switch_off_all es (write f p o1)).1.at q in
        let later = λ (x : Obj) (at : (write f p o1).at q ≡ some x).
          switch_off_all-Switched (write f p o1) es q x all1 at in
        elim (Bool-cases (text_eq p q)) [
          | inl same ↦
              rw (file, switch_off_lem f e.d_name r, same)
                (let found : r.object ≡ o = same_object f p q o r.object same h r.holds in
                  rewritten-Switched o after (covers es q)
                    (subst (λ x. j.is_object x ≡ true) found r.is_object)
                    (subst (λ x. Switched (covers es q) (j.add x status_key off) after) found
                      (later o1 (rw same))))
          | inr other ↦ rw (file, switch_off_lem f e.d_name r, other) (later o (rw other h))
        ]
  ]

  -- A file that is not there does not come into being.
  pub switch_off_all_absent :
      (f : Files Obj) (es : List Entry) (q : Text)
      → AllRewritable f es
      → f.at q ≡ none
      → (switch_off_all es f).1.at q ≡ none
  unfolding switch_off_all
  switch_off_all_absent f [] q all h = h
  switch_off_all_absent f (e ∷ es) q all h = elim (Bool-cases e.is_dir) [
    | inl dir ↦ rw dir (switch_off_all_absent f es q all.1 h)
    | inr file ↦
        let r = all.0 file in
        let p = path_of e.d_name in
        let o1 = j.add r.object status_key off in
        let all1 =
          AllRewritable-write f p o1 es (j.add-is_object r.object status_key off r.is_object)
            r.can_write all.1 in
        elim (Bool-cases (text_eq p q)) [
          | inl same ↦
              absurd (cc (subst (λ x. f.at x ≡ some r.object) (eq_of_text_eq p q same) r.holds, h))
          | inr other ↦
              rw (file, switch_off_lem f e.d_name r)
                (switch_off_all_absent (write f p o1) es q all1 (rw other h))
        ]
  ]
