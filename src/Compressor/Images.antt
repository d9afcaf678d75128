-- ===== src/Compressor/Images.antt =====
-- `demote_image_messages` of compressor.py.
use agents_universe.Prelude.{
  ℕ, suc, ◌+◌, ◌≡◌, refl, inl, inr, List, [], ◌∷◌, ◌++◌, arith, ◌==◌, if◌then◌else◌, Bool-cases,
}
use agents_universe.Prelude.Text.{Text, codes}
use agents_universe.Compressor.Message.{
  Part, text, image, other, Content, missing, plain, parts, Message,
}

-- The text that stands for an image.
reference : Text → Text
reference media =
    codes "[Attachment image ("
    ++ (media
        ++ codes
            ") removed from context to fit the request size limit — use filesystem read_file on its path to inspect it if needed]")

demote_part : Part → Part × ℕ
unfolding reference
demote_part (image media content) = (text (reference media), 1)
demote_part (text t) = (text t, 0)
demote_part (other t) = (other t, 0)

demote_parts : List Part → List Part × ℕ
unfolding demote_part
demote_parts [] = ([], 0)
demote_parts (p ∷ ps) =
    let (q, n) = demote_part p in let (qs, k) = demote_parts ps in (q ∷ qs, n + k)

-- `if changed: m.content = parts`
demote_content : Content → Content × ℕ
unfolding demote_parts
demote_content missing = (missing, 0)
demote_content (plain t) = (plain t, 0)
demote_content (parts ps) =
    let (qs, n) = demote_parts ps in if n == 0 then (parts ps, 0) else (parts qs, n)

pub demote_image_messages : List Message → List Message × ℕ
unfolding demote_content
demote_image_messages [] = ([], 0)
demote_image_messages (m ∷ ms) =
    let (content, n) = demote_content m.content in
    let (ms', k) = demote_image_messages ms in (record m { content = content } ∷ ms', n + k)

abbrev pub images_of : List Part → ℕ
images_of [] = 0
images_of (image media content ∷ ps) = suc (images_of ps)
images_of (text t ∷ ps) = images_of ps
images_of (other t ∷ ps) = images_of ps

abbrev pub images_in : Content → ℕ
images_in missing = 0
images_in (plain t) = 0
images_in (parts ps) = images_of ps

abbrev pub images : List Message → ℕ
images [] = 0
images (m ∷ ms) = images_in m.content + images ms

-- A part stays what it was, unless it is an image, which becomes a text.
abbrev pub SameParts : List Part → List Part → Type 0
SameParts [] [] = Unit
SameParts [] (q ∷ qs) = ⊥
SameParts (p ∷ ps) [] = ⊥
SameParts (image media content ∷ ps) (q ∷ qs) = ((t : Text) × (q ≡ text t)) × SameParts ps qs
SameParts (text t ∷ ps) (q ∷ qs) = (q ≡ text t) × SameParts ps qs
SameParts (other t ∷ ps) (q ∷ qs) = (q ≡ other t) × SameParts ps qs

abbrev pub SameContent : Content → Content → Type 0
SameContent (parts ps) (parts qs) = SameParts ps qs
SameContent c d = d ≡ c

abbrev pub SameMessages : List Message → List Message → Type 0
SameMessages [] [] = Unit
SameMessages [] (n ∷ ns) = ⊥
SameMessages (m ∷ ms) [] = ⊥
SameMessages (m ∷ ms) (n ∷ ns) =
    SameContent m.content n.content × (n ≡ record m { content = n.content }) × SameMessages ms ns

demote_parts_lem :
    (ps : List Part)
    → (images_of (demote_parts ps).0 ≡ 0)
      × ((demote_parts ps).1 ≡ images_of ps)
      × SameParts ps (demote_parts ps).0
unfolding demote_parts
demote_parts_lem [] = (refl, refl, tt)
demote_parts_lem (image media content ∷ ps) =
    let (none_left, counted, same) = demote_parts_lem ps in
    (none_left, omega arith, ((reference media, refl), same))
demote_parts_lem (text t ∷ ps) =
    let (none_left, counted, same) = demote_parts_lem ps in (none_left, omega arith, (refl, same))
demote_parts_lem (other t ∷ ps) =
    let (none_left, counted, same) = demote_parts_lem ps in (none_left, omega arith, (refl, same))

SameParts-refl : (ps : List Part) → images_of ps ≡ 0 → SameParts ps ps
SameParts-refl [] h = tt
SameParts-refl (image media content ∷ ps) h = absurd (omega arith)
SameParts-refl (text t ∷ ps) h = (refl, SameParts-refl ps h)
SameParts-refl (other t ∷ ps) h = (refl, SameParts-refl ps h)

demote_content_lem :
    (c : Content)
    → (images_in (demote_content c).0 ≡ 0)
      × ((demote_content c).1 ≡ images_in c)
      × SameContent c (demote_content c).0
unfolding demote_content
demote_content_lem missing = (refl, refl, refl)
demote_content_lem (plain t) = (refl, refl, refl)
demote_content_lem (parts ps) =
    let (none_left, counted, same) = demote_parts_lem ps in
    elim (Bool-cases ((demote_parts ps).1 == 0)) [
      | inl e ↦
          let zero_images : images_of ps ≡ 0 = ground arith in
          rw e (zero_images, omega arith, SameParts-refl ps zero_images)
      | inr e ↦ rw e (none_left, counted, same)
    ]

-- Demotion leaves no image, counts the images that were there, turns each of them into a text in
-- its place, and keeps the other parts, the other contents and all other fields.
demote_lem :
    (ms : List Message)
    → (images (demote_image_messages ms).0 ≡ 0)
      × ((demote_image_messages ms).1 ≡ images ms)
      × SameMessages ms (demote_image_messages ms).0
unfolding demote_image_messages
demote_lem [] = (refl, refl, tt)
demote_lem (m ∷ ms) =
    let (none_here, counted_here, same_here) = demote_content_lem m.content in
    let (none_left, counted, same) = demote_lem ms in
    (omega arith, omega arith, (same_here, refl, same))
