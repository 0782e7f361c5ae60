-- ===== src/Tests/Codec.antt =====
-- A codec that writes the texts of a cursor one after the other, each after its length.
use capital_os.Base.{
  ℕ, ◌≡◌, refl, ap, ◌∙◌, Option, none, some, List, [], ◌∷◌, ◌++◌, length, take, drop,
}
use capital_os.Text.{Text, text_eq}
use capital_os.Json.{Json, Members, string, member, object, versioned, Codec, CodecLaws}

write_text : Text → List ℕ → List ℕ
write_text t rest = length t ∷ t ++ rest

abbrev text_of : Json → Text
text_of (string t) = t
text_of _ = []

write_members : Members → List ℕ
unfolding write_text
write_members (member a s (member b t rest)) =
    123 ∷ write_text a (write_text (text_of s) (write_text b (write_text (text_of t) [])))
write_members _ = []

read_text : List ℕ → Text × List ℕ
read_text [] = ([], [])
read_text (n ∷ xs) = (take n xs, drop n xs)

with_t : Text → Text → Text → Text × List ℕ → Option Json
with_t a s b (t, rest) = some (object (versioned a s b t))

with_b : Text → Text → Text × List ℕ → Option Json
unfolding with_t
with_b a s (b, rest) = with_t a s b (read_text rest)

with_s : Text → Text × List ℕ → Option Json
unfolding with_b
with_s a (s, rest) = with_b a s (read_text rest)

with_a : Text × List ℕ → Option Json
unfolding with_s
with_a (a, rest) = with_s a (read_text rest)

read_members : List ℕ → Option Json
unfolding with_a
read_members [] = none
read_members (_ ∷ bytes) = with_a (read_text bytes)

pub plain_codec : Codec
plain_codec = record {
  dumps = write_members;
  loads = read_members;
  urlsafe_b64encode = λ bytes. bytes;
  urlsafe_b64decode = λ text. some text;
}

take-append : (xs ys : List ℕ) → take (length xs) (xs ++ ys) ≡ xs
take-append [] ys = refl
take-append (x ∷ xs) ys = ap (λ zs. x ∷ zs) (take-append xs ys)

drop-append : (xs ys : List ℕ) → drop (length xs) (xs ++ ys) ≡ ys
drop-append [] ys = refl
drop-append (x ∷ xs) ys = drop-append xs ys

read_text-write_text : (t : Text) (rest : List ℕ) → read_text (write_text t rest) ≡ (t, rest)
unfolding read_text write_text
read_text-write_text t rest = rw (take-append t rest, drop-append t rest) refl

pub plain_codec-CodecLaws : CodecLaws plain_codec
unfolding plain_codec write_members read_members with_a with_s with_b with_t text_eq
plain_codec-CodecLaws = record {
  loads-dumps = λ a s b t _ _ _.
      ap with_a (read_text-write_text a (write_text s (write_text b (write_text t []))))
      ∙ ap (with_s a) (read_text-write_text s (write_text b (write_text t [])))
      ∙ ap (with_b a s) (read_text-write_text b (write_text t []))
      ∙ ap (with_t a s b) (read_text-write_text t []);
  decode-encode = λ bytes. refl;
  not_empty = λ a s b t. refl;
}
