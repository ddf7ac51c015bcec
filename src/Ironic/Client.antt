-- ===== src/Ironic/Client.antt =====
-- internal/ironic/ipa/client.go: the requests to the agent of a node. JSON and the transport are
-- arguments; an error is `none`. The escaping is that of `net/url`.
pub mod Escapes
pub mod Urls
mod Tests
use auto_pxe.Prelude.{
  ℕ, ◌+◌, ◌/◌, ◌%◌, ◌==◌, leb, ltb, Bool, true, false, ◌&&◌, ◌||◌, Option, none, some, List, [],
  ◌∷◌, ◌++◌, if◌then◌else◌, Text, codes, ◌>>=◌,
}

-- `Client`, without the library's client.
pub record Client : Type 0 where
  pub base_url : Text
  pub agent_token : Text

unfoldable pub new_client : Text → Text → Client
new_client base_url token = record { base_url = base_url; agent_token = token }

-- A byte that no part of an URL escapes.
unfoldable pub is_unreserved : ℕ → Bool
is_unreserved c =
    (leb b'a' c && leb c b'z')
    || ((leb b'A' c && leb c b'Z')
        || ((leb b'0' c && leb c b'9') || (c == b'-' || (c == b'_' || (c == b'.' || c == b'~')))))

-- A digit of a base-16 number, in upper case.
unfoldable pub upper_digit : ℕ → ℕ
upper_digit n = if ltb n 10 then b'0' + n else 55 + n

-- `%XY`
unfoldable pub percent : ℕ → Text
unfolding upper_digit
percent c = b'%' ∷ upper_digit (c / 16) ∷ upper_digit (c % 16) ∷ []

unfoldable pub query_byte : ℕ → Text
unfolding is_unreserved percent
query_byte c = if is_unreserved c then c ∷ [] else if c == b' ' then b'+' ∷ [] else percent c

-- `url.QueryEscape`
unfoldable pub query_escape : Text → Text
unfolding query_byte
query_escape [] = []
query_escape (c ∷ cs) = query_byte c ++ query_escape cs

-- The reserved bytes that may stand in a part of a path.
unfoldable pub is_segment_byte : ℕ → Bool
is_segment_byte c =
    c == b'$' || (c == b'&' || (c == b'+' || (c == b':' || (c == b'=' || c == b'@'))))

unfoldable pub path_byte : ℕ → Text
unfolding is_unreserved is_segment_byte percent
path_byte c = if is_unreserved c || is_segment_byte c then c ∷ [] else percent c

-- `url.PathEscape`
unfoldable pub path_escape : Text → Text
unfolding path_byte
path_escape [] = []
path_escape (c ∷ cs) = path_byte c ++ path_escape cs

-- `cmdsURL`
unfoldable pub cmds_url : Client → Text
unfolding query_escape
cmds_url c = c.base_url ++ (codes "/v1/commands/?agent_token=" ++ query_escape c.agent_token)

-- `cmdURL`
unfoldable pub cmd_url : Client → Text → Text
unfolding query_escape path_escape
cmd_url c id =
    c.base_url
    ++ (codes "/v1/commands/"
        ++ (path_escape id ++ (codes "?agent_token=" ++ query_escape c.agent_token)))

pub data Method : Type 0 where
  get : Method
  post : Text → Method

module _ {Params Object : Type 0} (marshal : Text → Params → Text)
    (unmarshal : Text → Option Object) (is_url : Text → Bool)
    (exchange : Method → Text → Option Text) where
  -- A request and the decoding of the answer's body, as far as it can be read.
  unfoldable pub request : Method → Text → Option Object
  request method url = if is_url url then (do body ← exchange method url; unmarshal body) else none

  -- `SendCommand`
  unfoldable pub send_command : Client → Text → Params → Option Object
  unfolding request cmds_url
  send_command c name params = request (post (marshal name params)) (cmds_url c)

  -- `GetCommandStatus`
  unfoldable pub get_command_status : Client → Text → Option Object
  unfolding request cmd_url
  get_command_status c id = request get (cmd_url c id)
