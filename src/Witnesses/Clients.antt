-- ===== src/Witnesses/Clients.antt =====
-- Concrete cases of the theorems on clients and their options.
use firezone_sdk_go.Common.{
  ◌*◌, pos, ◌≡◌, ◌≢◌, ◌↔◌, refl, true, Option, some, List, [], ◌∷◌, Bytes, codes, All,
}
use firezone_sdk_go.Client.{
  second, Client, ClientOption, new_client, check_base_url, apply_options, apply_option, with_retry,
  with_user_agent, default_client,
}
use firezone_sdk_go.Client.Laws.{
  IsBase, IsValid, Succeeds, Accepts, new_client-IsValid, new_client_iff,
}
use firezone_sdk_go.Error.{ok}
use firezone_sdk_go.Url.{Url}
use firezone_sdk_go.Witnesses.{base}

abbrev parse : Bytes → Option Url
parse s = some base

abbrev options : List ClientOption
options = ClientOption.retry true (pos 3) ∷ ClientOption.user_agent (codes "acme/1") ∷ []

abbrev options_client : Client
options_client = record {
  base_url = base;
  token = codes "t0ken";
  http_client = 0;
  user_agent = codes "acme/1";
  request_timeout = pos (30 * second);
  retry_enabled = true;
  max_retries = pos 3;
  retry_max_wait = pos 0;
}

new_client_run :
    new_client parse (codes "sdk") (codes "https://api.example.com/v1") (codes "t0ken") options
    ≡ ok options_client
unfolding new_client check_base_url apply_options apply_option with_retry with_user_agent
    default_client
new_client_run = refl

agent_ne : codes "sdk" ≢ []
agent_ne e = cc

new_client_iff_example :
    Succeeds
      (new_client parse (codes "sdk") (codes "https://api.example.com/v1") (codes "t0ken") options)
    ↔ (((u : Url) × (parse (codes "https://api.example.com/v1") ≡ some u) × IsBase u)
        × All Accepts options)
new_client_iff_example =
    new_client_iff parse (codes "sdk") (codes "https://api.example.com/v1") (codes "t0ken") options

new_client-IsValid_example : IsValid options_client
new_client-IsValid_example =
    new_client-IsValid parse (codes "sdk") (codes "https://api.example.com/v1") (codes "t0ken")
      options agent_ne new_client_run
