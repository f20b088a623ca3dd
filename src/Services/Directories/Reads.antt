-- ===== src/Services/Directories/Reads.antt =====
-- directories.go: the three services that read directories.
use firezone_sdk_go.Common.{Option, none, [], ◌∷◌, Bytes, codes}
use firezone_sdk_go.Api.{Page, into, client_do, do_list, unless}
use firezone_sdk_go.Client.{Client}
use firezone_sdk_go.Env.{Env}
use firezone_sdk_go.Error.{Result}
use firezone_sdk_go.Path.{check_id, build_path}
use firezone_sdk_go.Services.Directories.{
  DirectoryListOptions, directory_query, EntraDirectory, zero_entra_directory,
  decode_entra_directory, GoogleDirectory, zero_google_directory, decode_google_directory,
  OktaDirectory, zero_okta_directory, decode_okta_directory,
}

module _ {W : Type 0} (env : Env W) where
  unfoldable pub get_entra : Client → Bytes → W → Result EntraDirectory × W
  get_entra c id w =
      unless (check_id (codes "directory ID") id)
        (client_do env c (codes "GET") (build_path (codes "entra_directories" ∷ id ∷ [])) none none
          (into zero_entra_directory (decode_entra_directory env)))
        w

  unfoldable pub list_entra :
      Client → Option DirectoryListOptions → W → Result (Page EntraDirectory) × W
  list_entra c opts w =
      do_list env c (codes "GET") (codes "entra_directories") (directory_query opts)
        (decode_entra_directory env) w

  unfoldable pub get_google : Client → Bytes → W → Result GoogleDirectory × W
  get_google c id w =
      unless (check_id (codes "directory ID") id)
        (client_do env c (codes "GET") (build_path (codes "google_directories" ∷ id ∷ [])) none none
          (into zero_google_directory (decode_google_directory env)))
        w

  unfoldable pub list_google :
      Client → Option DirectoryListOptions → W → Result (Page GoogleDirectory) × W
  list_google c opts w =
      do_list env c (codes "GET") (codes "google_directories") (directory_query opts)
        (decode_google_directory env) w

  unfoldable pub get_okta : Client → Bytes → W → Result OktaDirectory × W
  get_okta c id w =
      unless (check_id (codes "directory ID") id)
        (client_do env c (codes "GET") (build_path (codes "okta_directories" ∷ id ∷ [])) none none
          (into zero_okta_directory (decode_okta_directory env)))
        w

  unfoldable pub list_okta :
      Client → Option DirectoryListOptions → W → Result (Page OktaDirectory) × W
  list_okta c opts w =
      do_list env c (codes "GET") (codes "okta_directories") (directory_query opts)
        (decode_okta_directory env) w
