-- ===== src/Tftp/Paths.antt =====
-- Which names `sanitize` of internal/tftp/server.go lets through.
use auto_pxe.Prelude.{
  ℕ, ◌≡◌, refl, sym, ap, ◌∙◌, Bool, true, false, ◌||◌, Option, none, some, List, [], ◌∷◌, ◌++◌,
  if◌then◌else◌, arith, Text, codes, is_empty, text_beq, has_byte, has_prefix, trim_prefix,
  after_prefix, split, join, All, All-append, Lacks, split-Lacks, split-All, join-Lacks, split-join,
  join-split, prepend, text_beq_iff, Bool-cases, inl, inr,
}
use mathlib.Core.Path.{subst}
use mathlib.Core.List.{append-nil, append_assoc}
use auto_pxe.Tftp.{
  drop_last, next_part, resolve, clean_rooted, Sanitized, empty_filename, invalid_filename,
  path_traversal, clean, checked, sanitize, Outcome, rejected, not_found, failed, sent, announced,
  send, serve, read,
}

-- A part of a path that names an entry of a directory.
abbrev pub IsPlain : Text → Type 0
IsPlain p =
    (is_empty p ≡ false)
    × (text_beq p (codes ".") ≡ false)
    × (text_beq p (codes "..") ≡ false)
    × Lacks b'/' p

drop_last-All : (P : Text → Type 0) (ps : List Text) → All P ps → All P (drop_last ps)
drop_last-All P [] h = tt
drop_last-All P (p ∷ []) h = tt
drop_last-All P (p ∷ q ∷ ps) h = (h.0, drop_last-All P (q ∷ ps) h.1)

next_part-All :
    (P : Text → Type 0) (done : List Text) (p : Text)
    → All P done
    → (is_empty p ≡ false → text_beq p (codes ".") ≡ false → text_beq p (codes "..") ≡ false → P p)
    → All P (next_part done p)
unfolding next_part
next_part-All P done p h k =
    go (is_empty p) (text_beq p (codes ".")) (text_beq p (codes "..")) refl refl refl
  where
    go :
        (a b c : Bool)
        → is_empty p ≡ a
        → text_beq p (codes ".") ≡ b
        → text_beq p (codes "..") ≡ c
        → All P (if a || b then done else if c then drop_last done else done ++ p ∷ [])
    go true b c ea eb ec = h
    go false true c ea eb ec = h
    go false false true ea eb ec = drop_last-All P done h
    go false false false ea eb ec = All-append P done (p ∷ []) h (k ea eb ec, tt)

resolve-All :
    (P Q : Text → Type 0) (done ps : List Text)
    → ((p : Text)
        → is_empty p ≡ false
        → text_beq p (codes ".") ≡ false
        → text_beq p (codes "..") ≡ false
        → Q p
        → P p)
    → All P done
    → All Q ps
    → All P (resolve done ps)
unfolding resolve
resolve-All P Q done [] f h k = h
resolve-All P Q done (p ∷ ps) f h k =
    resolve-All P Q (next_part done p) ps f (next_part-All P done p h (λ a b c. f p a b c k.0)) k.1

next_part-plain : (done : List Text) (p : Text) → IsPlain p → next_part done p ≡ done ++ p ∷ []
unfolding next_part
next_part-plain done p h = ground arith

resolve-plain : (done ps : List Text) → All IsPlain ps → resolve done ps ≡ done ++ ps
unfolding resolve
resolve-plain done [] h = sym (append-nil done)
resolve-plain done (p ∷ ps) h =
    resolve-plain (next_part done p) ps h.1
    ∙ ap (λ t. t ++ ps) (next_part-plain done p h.0)
    ∙ append_assoc done (p ∷ []) ps

-- A name whose parts are plain, that has no NUL and does not begin with two dots.
abbrev pub IsSafe : Text → Type 0
IsSafe name = All IsPlain (split b'/' name) × Lacks 0 name × (has_prefix (codes "..") name ≡ false)

checked-clean :
    (t c : Text)
    → checked t ≡ clean c
    → (t ≡ c) × (is_empty t ≡ false) × (has_prefix (codes "..") t ≡ false)
unfolding checked
checked-clean t c h = (ground arith, ground arith, ground arith)

-- The parts that are left of a name.
abbrev parts : Text → List Text
parts name = resolve [] (split b'/' (b'/' ∷ name))

sanitize-clean :
    (name c : Text)
    → sanitize name ≡ clean c
    → Lacks 0 name
      × (join b'/' (parts name) ≡ c)
      × (is_empty (join b'/' (parts name)) ≡ false)
      × (has_prefix (codes "..") c ≡ false)
unfolding sanitize clean_rooted trim_prefix after_prefix
sanitize-clean name c h = go (is_empty name) (has_byte 0 name) refl refl h
  where
    t : Text
    t = join b'/' (parts name)

    go :
        (a b : Bool)
        → is_empty name ≡ a
        → has_byte 0 name ≡ b
        → (if a then empty_filename else if b then invalid_filename else checked t) ≡ clean c
        → Lacks 0 name × (t ≡ c) × (is_empty t ≡ false) × (has_prefix (codes "..") c ≡ false)
    go true b ea eb h' = cc
    go false true ea eb h' = cc
    go false false ea eb h' =
        let (same, some_text, dots) = checked-clean t c h' in
        (eb, same, some_text, simp (sym same) dots)

parts-IsPlain : (name : Text) → All IsPlain (parts name)
parts-IsPlain name =
    resolve-All IsPlain (Lacks b'/') [] _ (λ p a b c k. (a, b, c, k)) tt
      (split-Lacks b'/' (b'/' ∷ name))

parts-Lacks : (name : Text) → Lacks 0 name → All (Lacks 0) (parts name)
unfolding has_byte
parts-Lacks name h =
    resolve-All (Lacks 0) (Lacks 0) [] _ (λ p a b c k. k) tt (split-All b'/' 0 (b'/' ∷ name) h)

All-map : (P Q : Text → Type 0) → ((p : Text) → P p → Q p) → (ps : List Text) → All P ps → All Q ps
All-map P Q f [] h = tt
All-map P Q f (p ∷ ps) h = (f p h.0, All-map P Q f ps h.1)

split-join_plain :
    (ps : List Text)
    → is_empty (join b'/' ps) ≡ false
    → All IsPlain ps
    → split b'/' (join b'/' ps) ≡ ps
unfolding join is_empty
split-join_plain [] e h = cc
split-join_plain (p ∷ ps) e h =
    split-join b'/' p ps (All-map IsPlain (Lacks b'/') (λ p h. h.3) (p ∷ ps) h)

-- A name that `sanitize` lets through is safe: it has no empty part and none that is `.` or `..`, so it
-- names a file below the root, it has no NUL, and it does not begin with two dots.
pub sanitize-IsSafe : (name c : Text) → sanitize name ≡ clean c → IsSafe c
sanitize-IsSafe name c h =
    let (nul, same, some_text, dots) = sanitize-clean name c h in
    let plain = parts-IsPlain name in
    let split_plain =
      subst (All IsPlain) (sym (split-join_plain (parts name) some_text plain)) plain in
    (
      subst (λ t. All IsPlain (split b'/' t)) same split_plain,
      subst (Lacks 0) same (join-Lacks b'/' 0 (parts name) refl (parts-Lacks name nul)),
      dots,
    )

not_empty : (name : Text) → All IsPlain (split b'/' name) → is_empty name ≡ false
unfolding is_empty split
not_empty [] h = h.0.0
not_empty (c ∷ cs) h = refl

not_dot : (name : Text) → All IsPlain (split b'/' name) → text_beq name (codes ".") ≡ false
unfolding split text_beq prepend
not_dot name h = elim (Bool-cases (text_beq name (codes "."))) [
  | inr other ↦ other
  | inl same ↦
      dot_not_plain
        (subst (λ t. All IsPlain (split b'/' t)) ((text_beq_iff name (codes ".")).0 same) h)
]
  where
    dot_not_plain : All IsPlain (split b'/' (codes ".")) → text_beq name (codes ".") ≡ false
    dot_not_plain k = let e : true ≡ false = k.0.1 in cc

checked-safe :
    (name : Text)
    → All IsPlain (split b'/' name)
    → has_prefix (codes "..") name ≡ false
    → checked name ≡ clean name
unfolding checked
checked-safe name h dots = ground (arith, not_empty name h, not_dot name h)

sanitize-checked :
    (name t : Text)
    → is_empty name ≡ false
    → Lacks 0 name
    → join b'/' (parts name) ≡ t
    → sanitize name ≡ checked t
unfolding sanitize clean_rooted trim_prefix after_prefix
sanitize-checked name t some_text nul same = go (is_empty name) (has_byte 0 name) some_text nul
  where
    go :
        (a b : Bool)
        → a ≡ false
        → b ≡ false
        → (if a
            then empty_filename
            else if b
            then invalid_filename
            else checked (join b'/' (parts name)))
          ≡ checked t
    go true b ea eb = cc
    go false true ea eb = cc
    go false false ea eb = ap checked same

-- A safe name is let through as it is.
pub sanitize-safe : (name : Text) → IsSafe name → sanitize name ≡ clean name
unfolding split resolve
sanitize-safe name (plain, nul, dots) =
    sanitize-checked name name (not_empty name plain) nul
      (ap (join b'/') (resolve-plain [] (split b'/' name) plain) ∙ join-split b'/' name)
    ∙ checked-safe name plain dots

-- The outcome is about a safe name, unless the request is rejected.
abbrev pub IsOfSafe : Outcome → Type 0
IsOfSafe (rejected e) = Unit
IsOfSafe (not_found name) = IsSafe name
IsOfSafe (failed name size bytes) = IsSafe name
IsOfSafe (sent name size bytes) = IsSafe name

module _ (open_file : Text → Option Text) (stat : Text → Option ℕ) (outgoing : Bool)
    (transfer : Text → Bool × ℕ) where
  serve-IsOfSafe :
      (s : Sanitized)
      → ((c : Text) → s ≡ clean c → IsSafe c)
      → IsOfSafe (serve open_file stat outgoing transfer s)
  unfolding serve send
  serve-IsOfSafe empty_filename h = tt
  serve-IsOfSafe invalid_filename h = tt
  serve-IsOfSafe path_traversal h = tt
  serve-IsOfSafe (clean name) h = go (open_file name)
    where
      pick :
          (content : Text) (r : Bool × ℕ)
          → IsOfSafe (
              if r.0
              then sent name (announced open_file stat outgoing transfer name) r.1
              else failed name (announced open_file stat outgoing transfer name) r.1)
      pick content (true, n) = h name refl
      pick content (false, n) = h name refl

      go :
          (o : Option Text)
          → IsOfSafe (elim o [
            | none ↦ not_found name
            | some content ↦ send open_file stat outgoing transfer name content
          ])
      go none = h name refl
      go (some content) = pick content (transfer content)

  -- Whatever the request, the files, and the way the transfer goes: a name that `read` opens is safe.
  pub read-IsOfSafe : (filename : Text) → IsOfSafe (read open_file stat outgoing transfer filename)
  unfolding read
  read-IsOfSafe filename = serve-IsOfSafe (sanitize filename) (sanitize-IsSafe filename)
