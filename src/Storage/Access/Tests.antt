-- ===== src/Storage/Access/Tests.antt =====
-- Examples of requests with and without a token.
use garance.Prelude.{bytes, true, ◌∷◌, [], none, ◌≡◌, refl}
use garance.Http.{Response}
use garance.Auth.Toy.{toy}
use garance.Storage.Handler.{to_content}
use garance.Storage.Handler.Routes.{get_path}
use garance.Storage.Tests.{list_store, list_laws, before, file, uploads, after}
use garance.Storage.Access.{AllRefused, routes-AllRefused, get_path-upload}

routes-AllRefused_example :
    AllRefused toy list_store (λ a b. true) (bytes "secret") (bytes "Basic YTpi") before
routes-AllRefused_example =
    routes-AllRefused toy list_store (λ a b. true) (bytes "secret") (bytes "Basic YTpi") before refl

get_path-upload_example :
    (get_path toy list_store
      (λ a b. true)
      (bytes "secret")
      []
      (bytes "photos")
      (bytes "a.txt")
      after).0
    ≡ Response.json 200 (to_content toy list_store (1 ∷ 2 ∷ [], file))
get_path-upload_example =
    get_path-upload toy list_store (λ a b. true) (bytes "secret") [] list_laws (bytes "photos")
      (bytes "a.txt") (1 ∷ 2 ∷ []) 2 (bytes "text/plain") none before after file uploads refl refl
