-- ===== src/Ironic/Client/Urls.antt =====
-- internal/ironic/ipa/client.go: what an agent reads in the URLs that it is sent.
use auto_pxe.Prelude.{
  ℕ, ◌≡◌, refl, sym, ap, ◌∙◌, true, false, ◌||◌, Option, none, some, [], ◌∷◌, ◌++◌, if◌then◌else◌,
  Text, codes, ◌>>=◌, arith, has_byte, cut, Bool-cases, inl, inr, ◌==◌, after_prefix,
  after_prefix-append,
}
use mathlib.Core.List.{append-nil, append_assoc}
use auto_pxe.Ironic.Client.{
  Client, is_unreserved, is_segment_byte, query_escape, path_escape, cmds_url, cmd_url,
}
use auto_pxe.Ironic.Client.Escapes.{
  IsBytes, plain, read, read-query_escape, read-path_escape, has_byte-query_escape,
  has_byte-path_escape,
}

-- How an agent whose API stands at `root` reads an URL: the id of the command, the last part of the
-- path, and the token, the only parameter of the query.
unfoldable pub read_command : Text → Text → Option (Text × Text)
unfolding cut after_prefix has_byte
read_command root url = do
  parts ← cut b'?' url
  id ← after_prefix (root ++ codes "/v1/commands/") parts.0
  token ← after_prefix (codes "agent_token=") parts.1
  (if has_byte b'/' id || has_byte b'&' token
      then none
      else (do i ← read false plain id; t ← read true plain token; some (i, t)))

abbrev pub put_before : Text → Option (Text × Text) → Option (Text × Text)
put_before s none = none
put_before s (some (a, b)) = some (s ++ a, b)

pub cut-append :
    (x : ℕ) (s t : Text) → has_byte x s ≡ false → cut x (s ++ t) ≡ put_before s (cut x t)
unfolding cut has_byte
cut-append x [] t h = nothing (cut x t)
  where
    nothing : (o : Option (Text × Text)) → o ≡ put_before [] o
    nothing none = refl
    nothing (some (a, b)) = refl
cut-append x (c ∷ s) t h = elim (Bool-cases (c == x)) [
  | inl same ↦ absurd (ground (arith, same, h))
  | inr apart ↦ rw (apart, cut-append x s t (ground (arith, h))) (put_both (cut x t))
]
  where
    put_both :
        (o : Option (Text × Text))
        → (elim (put_before s o) [ none ↦ none | some (a, b) ↦ some (c ∷ a, b) ])
          ≡ put_before (c ∷ s) o
    put_both none = refl
    put_both (some (a, b)) = refl

read_parts :
    (root e q id token : Text)
    → has_byte b'?' root ≡ false
    → has_byte b'?' e ≡ false
    → has_byte b'/' e ≡ false
    → has_byte b'&' q ≡ false
    → read false plain e ≡ some id
    → read true plain q ≡ some token
    → read_command root (root ++ (codes "/v1/commands/" ++ (e ++ (codes "?agent_token=" ++ q))))
      ≡ some (id, token)
unfolding read_command cut has_byte
read_parts root e q id token bare one single alone at_id at_token =
    let prefix : Text = codes "/v1/commands/" in
    let query : Text = codes "agent_token=" ++ q in
    let at_cut : cut b'?' (root ++ (prefix ++ (e ++ b'?' ∷ query)))
        ≡ some (root ++ (prefix ++ (e ++ [])), query) =
      cut-append b'?' root (prefix ++ (e ++ b'?' ∷ query)) bare
      ∙ ap (put_before root) (
          cut-append b'?' prefix (e ++ b'?' ∷ query) refl
          ∙ ap (put_before prefix) (cut-append b'?' e (b'?' ∷ query) one)) in
    let whole : root ++ (prefix ++ (e ++ [])) ≡ (root ++ prefix) ++ e =
      ap (λ z. root ++ (prefix ++ z)) (append-nil e) ∙ sym (append_assoc root prefix e) in
    let at_prefix : after_prefix (root ++ prefix) (root ++ (prefix ++ (e ++ []))) ≡ some e =
      ap (after_prefix (root ++ prefix)) whole ∙ after_prefix-append (root ++ prefix) e in
    rw (at_cut, at_prefix, single, alone, at_id, at_token) refl

-- If the agent's URL has no `?`, and the texts are bytes: the agent reads in the URL of a command's status
-- the command's id and the token, whatever bytes they have, and in the URL of a new command the token and
-- no id.
pub cmd_url-read_command :
    (c : Client) (id : Text)
    → has_byte b'?' c.base_url ≡ false
    → IsBytes id
    → IsBytes c.agent_token
    → (read_command c.base_url (cmd_url c id) ≡ some (id, c.agent_token))
      × (read_command c.base_url (cmds_url c) ≡ some ([], c.agent_token))
unfolding cmd_url cmds_url is_unreserved is_segment_byte has_byte
cmd_url-read_command c id bare i t = (
  read_parts c.base_url (path_escape id) (query_escape c.agent_token) id c.agent_token bare
      (has_byte-path_escape b'?' id i (refl, refl, refl) refl)
      (has_byte-path_escape b'/' id i (refl, refl, refl) refl)
      (has_byte-query_escape b'&' c.agent_token t (refl, refl, refl)) (read-path_escape id i)
      (read-query_escape c.agent_token t),
  read_parts c.base_url [] (query_escape c.agent_token) [] c.agent_token bare refl refl
      (has_byte-query_escape b'&' c.agent_token t (refl, refl, refl)) (read-path_escape [] tt)
      (read-query_escape c.agent_token t),
)
