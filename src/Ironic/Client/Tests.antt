-- ===== src/Ironic/Client/Tests.antt =====
-- The requests to an agent at concrete inputs.
use auto_pxe.Prelude.{◌≡◌, refl, arith, true, some, none, [], Text, codes, Option, has_byte, ◌++◌}
use auto_pxe.Ironic.Client.{
  Client, new_client, cmds_url, cmd_url, get_command_status, send_command, get, post, Method,
}
use auto_pxe.Ironic.Client.Escapes.{IsBytes}
use auto_pxe.Ironic.Client.Urls
use auto_pxe.Ironic.Client.Urls.{read_command}

abbrev client : Client
unfolding new_client
client = new_client (codes "http://192.168.100.10:9999") (codes "a b&c")

-- A slash, a question mark and a percent sign in an id.
abbrev odd : Text
odd = codes "x/1?%"

cmd_url_runs :
    cmd_url client odd
    ≡ codes "http://192.168.100.10:9999/v1/commands/x%2F1%3F%25?agent_token=a+b%26c"
unfolding cmd_url new_client
cmd_url_runs = refl

-- An agent that answers with the method.
abbrev echo : Method → Text → Option Text
echo get url = some (codes "{}")
echo (post body) url = none

failed_post :
    send_command
      (λ n p. n ++ p)
      (λ body. some body)
      (λ url. true)
      echo
      client
      (codes "standby.run_image")
      []
    ≡ none
unfolding send_command
failed_post = refl

answered_get :
    get_command_status (λ n (p : Text). n ++ p) (λ body. some body) (λ url. true) echo client odd
    ≡ some (codes "{}")
unfolding get_command_status
answered_get = refl

odd-IsBytes : IsBytes odd
odd-IsBytes = (omega arith, (omega arith, (omega arith, (omega arith, (omega arith, tt)))))

token-IsBytes : IsBytes client.agent_token
unfolding new_client
token-IsBytes = (omega arith, (omega arith, (omega arith, (omega arith, (omega arith, tt)))))

cmd_url-read_command_example :
    (read_command client.base_url (cmd_url client odd) ≡ some (odd, client.agent_token))
    × (read_command client.base_url (cmds_url client) ≡ some ([], client.agent_token))
unfolding has_byte new_client
cmd_url-read_command_example = Urls.cmd_url-read_command client odd refl odd-IsBytes token-IsBytes
