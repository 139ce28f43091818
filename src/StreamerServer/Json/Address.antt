-- ===== src/StreamerServer/Json/Address.antt =====
-- Which streams have a status file of their own: names are cut so that the path fits 64 bytes.
use live_streamer.Common.{
  ◌≤◌, ◌≡◌, ◌≢◌, refl, sym, ap, ◌∙◌, ◌++◌, length, take, arith, length-append, take_all,
  take-append, take-take, [], ◌∷◌, List, false, ⊤, ◌==◌, ◌||◌, if◌then◌else◌, append_right_cancel,
  append_left_cancel, append_assoc,
}
use live_streamer.Text.{Text, codes, text_eq}
use live_streamer.StreamerServer.Json.{address}

-- The name of the file in `status/`: what `readdir` gives for it.
pub file_name : Text → Text
file_name id = take 56 (id ++ codes ".json")

cut_path : (t : Text) → take 63 (codes "status/" ++ t) ≡ codes "status/" ++ take 56 t
unfolding codes
cut_path t = refl

-- The path that the sweep of main.c makes of that name is the path of the stream's file.
pub address-file_name : (id : Text) → take 63 (codes "status/" ++ file_name id) ≡ address id
unfolding address file_name
address-file_name id =
    cut_path (take 56 (id ++ codes ".json"))
    ∙ ap (λ t. codes "status/" ++ t) (take-take 56 56 (id ++ codes ".json") (omega arith))
    ∙ sym (cut_path (id ++ codes ".json"))

whole_name : (a : Text) → length a ≤ 51 → take 56 (a ++ codes ".json") ≡ a ++ codes ".json"
unfolding codes
whole_name a h = take_all 56 (a ++ codes ".json") (omega (arith, length-append a (codes ".json")))

-- Streams with different names of at most 51 bytes have different paths.
pub address_injective : (a b : Text) → length a ≤ 51 → length b ≤ 51 → address a ≡ address b → a ≡ b
unfolding address
address_injective a b ha hb e = append_right_cancel a b (codes ".json") (
    sym (whole_name a ha)
    ∙ append_left_cancel (codes "status/") (take 56 (a ++ codes ".json"))
        (take 56 (b ++ codes ".json"))
        (sym (cut_path (a ++ codes ".json")) ∙ e ∙ cut_path (b ++ codes ".json"))
    ∙ whole_name b hb)

-- A name that can be one component of a path.
abbrev pub HasNoSlash : Text → Type 0
HasNoSlash [] = ⊤
HasNoSlash (b ∷ bs) = ((b == 47) ≡ false) × HasNoSlash bs

-- One more component in front; the empty one and "." stand for the directory itself.
unfoldable in_front : Text → List Text → List Text
in_front c cs = if text_eq c [] || text_eq c (codes ".") then cs else c ∷ cs

-- The component up to the first slash, and the ones behind it.
unfoldable split : Text → Text × List Text
unfolding in_front
split [] = ([], [])
split (b ∷ bs) = let (c, cs) = split bs in if b == 47 then ([], in_front c cs) else (b ∷ c, cs)

-- The components of a path, as the file system follows them; ".." is left as it is.
unfoldable pub resolved : Text → List Text
unfolding split in_front
resolved path = in_front (split path).0 (split path).1

split-HasNoSlash : (t : Text) → HasNoSlash t → split t ≡ (t, [])
unfolding split
split-HasNoSlash [] h = refl
split-HasNoSlash (b ∷ bs) h = rw (h.0, split-HasNoSlash bs h.1) refl

HasNoSlash-json : (t : Text) → HasNoSlash t → HasNoSlash (t ++ codes ".json")
unfolding codes
HasNoSlash-json [] h = (refl, (refl, (refl, (refl, (refl, tt)))))
HasNoSlash-json (b ∷ bs) h = (h.0, HasNoSlash-json bs h.1)

in_front-json :
    (t : Text) (cs : List Text) → in_front (t ++ codes ".json") cs ≡ (t ++ codes ".json") ∷ cs
unfolding in_front codes text_eq
in_front-json [] cs = refl
in_front-json (b ∷ []) cs = ground arith
in_front-json (b ∷ c ∷ bs) cs = ground arith

resolved_status : (t : Text) → resolved (codes "status/" ++ t) ≡ codes "status" ∷ resolved t
unfolding resolved split in_front codes text_eq
resolved_status t = refl

resolved-address :
    (a : Text)
    → length a ≤ 51
    → HasNoSlash a
    → resolved (address a) ≡ codes "status" ∷ (a ++ codes ".json") ∷ []
unfolding address resolved
resolved-address a h n =
    ap resolved (cut_path (a ++ codes ".json") ∙ ap (λ t. codes "status/" ++ t) (whole_name a h))
    ∙ resolved_status (a ++ codes ".json")
    ∙ ap (λ cs. codes "status" ∷ cs)
        (rw (split-HasNoSlash (a ++ codes ".json") (HasNoSlash-json a n)) (in_front-json a []))

pub resolved-address_injective :
    (a b : Text)
    → length a ≤ 51
    → length b ≤ 51
    → HasNoSlash a
    → HasNoSlash b
    → resolved (address a) ≡ resolved (address b)
    → a ≡ b
resolved-address_injective a b ha hb na nb e =
    let same : codes "status" ∷ (a ++ codes ".json") ∷ []
        ≡ codes "status" ∷ (b ++ codes ".json") ∷ [] =
      sym (resolved-address a ha na) ∙ e ∙ resolved-address b hb nb in
    append_right_cancel a b (codes ".json") (ground arith)

-- Two streams with different names of at most 51 bytes and without a slash have different status
-- files, as the file system follows their paths, where "" and "." between slashes add nothing.
pub resolved-address_ne :
    (a b : Text)
    → length a ≤ 51
    → length b ≤ 51
    → HasNoSlash a
    → HasNoSlash b
    → a ≢ b
    → resolved (address a) ≢ resolved (address b)
resolved-address_ne a b ha hb na nb ne e = ne (resolved-address_injective a b ha hb na nb e)

cut_name : (p x : Text) → length p ≡ 56 → take 56 ((p ++ x) ++ codes ".json") ≡ take 56 p
cut_name p x h = rw append_assoc (take-append 56 p (x ++ codes ".json") (omega arith))

-- Streams whose names agree in their first 56 bytes share one status file.
pub address_shared : (p a b : Text) → length p ≡ 56 → address (p ++ a) ≡ address (p ++ b)
unfolding address
address_shared p a b h =
    cut_path ((p ++ a) ++ codes ".json")
    ∙ ap (λ t. codes "status/" ++ t) (cut_name p a h ∙ sym (cut_name p b h))
    ∙ sym (cut_path ((p ++ b) ++ codes ".json"))
