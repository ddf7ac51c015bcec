-- ===== src/Http/Urls.antt =====
-- The URL of the image, internal/httpsrv/server.go, as the agent that is sent it reads it.
use auto_pxe.Prelude.{
  ℕ, ◌+◌, ◌%◌, ◌==◌, ◌≡◌, Bool, false, ◌||◌, Option, none, some, ◌∷◌, ◌++◌, if◌then◌else◌, Text,
  codes, text_eq, text_beq, after_prefix, cut, split, any, print_number, ◌>>=◌,
}
use auto_pxe.Config.{Config}
use auto_pxe.Ironic.Client.Escapes.{plain, read}

-- The text before the first byte of this value, or all of it.
before : ℕ → Text → Text
unfolding cut
before x s = elim (cut x s) [ none ↦ s | some parts ↦ parts.0 ]

-- A part of the path that stands for the folder or for the one above it.
has_dots : Text → Bool
unfolding split text_beq
has_dots path = any (λ p. text_beq p (codes ".") || text_beq p (codes "..")) (split b'/' path)

-- A path with a part of dots is changed on the way.
abbrev kept : Text → Option Text
kept path = if has_dots path then none else some path

-- The escapes in the path after the host are read.
abbrev of_parts : Text × Text → Option Text
of_parts parts = read false plain (b'/' ∷ parts.1) >>= kept

-- The path that is requested for an URL: it begins after the host, it ends before the query and the
-- fragment, and its escapes are read.
unfoldable pub request_path : Text → Option Text
unfolding before after_prefix cut has_dots
request_path u = do
  rest ← after_prefix (codes "http://") u
  cut b'/' (before b'?' (before b'#' rest)) >>= of_parts

-- A byte that is no digit.
abbrev IsOther : ℕ → Type 0
IsOther x = (n : ℕ) → (n % 10 + b'0' == x) ≡ false

module _ (ip name : Text) (port : ℕ) where
  abbrev rest : Text
  rest = ip ++ (codes ":" ++ (print_number port ++ (codes "/images/" ++ name)))
