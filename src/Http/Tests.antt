-- ===== src/Http/Tests.antt =====
-- Requests to the HTTP server.
use auto_pxe.Prelude.{some, any, ◌≡◌, refl, ◌⊎◌, ◌++◌, [], codes}
use auto_pxe.Config.{Config}
use auto_pxe.Config.Tests.{loaded}
use auto_pxe.Http.{Server, new_server, image_url, respond, not_found}
use auto_pxe.Http.Served
use auto_pxe.Http.Urls
use auto_pxe.Ironic.Client.Escapes.{read}

abbrev server : Server
server = new_server loaded

image_url_of : image_url server ≡ codes "http://192.168.100.1:8080/images/image.qcow2"
unfolding image_url new_server
image_url_of = refl

-- An image whose name has two dots is advertised and never served.
dotted : Config
dotted = record loaded { deploy = record (loaded.deploy) { image = codes "/srv/v1..2.img" } }

dotted_not_served : respond (codes "/images/v1..2.img") [] (new_server dotted) ≡ not_found
unfolding respond new_server dotted
dotted_not_served = refl

-- An image whose name has a question mark is advertised, and another path is requested.
marked : Config
marked = record loaded { deploy = record (loaded.deploy) { image = codes "/srv/v1?2.img" } }

marked_not_served :
    (Urls.request_path (image_url (new_server marked)) ≡ some (codes "/images/v1"))
    × (respond (codes "/images/v1") [] (new_server marked) ≡ not_found)
unfolding image_url respond new_server marked Urls.request_path read any
marked_not_served = (refl, refl)

respond-file_example :
    (codes "/images/image.qcow2" ≡ codes "/ipa.kernel") × (loaded.deploy.image ≡ loaded.ipa.kernel)
    ⊎ (codes "/images/image.qcow2" ≡ codes "/ipa.initramfs")
      × (loaded.deploy.image ≡ loaded.ipa.initramfs)
    ⊎ (codes "/images/image.qcow2" ≡ codes "/images/" ++ server.image_name)
      × (loaded.deploy.image ≡ loaded.deploy.image)
unfolding respond new_server
respond-file_example =
    Served.respond-file (codes "/images/image.qcow2") [] loaded.deploy.image server refl
