-- ===== src/Http.antt =====
-- internal/httpsrv/server.go: the addresses that the server gives out and the requests it answers. The
-- template of the boot script, the sending of a file and the cleaning of a request's path are the
-- library's.
pub mod Served
pub mod Urls
pub mod Tests
use auto_pxe.Prelude.{
  last_part, base, ℕ, Bool, true, false, not, ◌||◌, Option, none, some, List, [], ◌∷◌, ◌++◌,
  if◌then◌else◌, Text, codes, is_empty, text_beq, has_byte, has_prefix, trim_prefix, trim_end,
  contains, split, print_number,
}
use auto_pxe.Config.{Config}

-- `Server`, without the logger, the template and the listener.
pub record Server : Type 0 where
  pub cfg : Config
  pub image_name : Text

unfoldable pub new_server : Config → Server
unfolding base
new_server cfg = record { cfg = cfg; image_name = base cfg.deploy.image }

-- `http://IP:port` and what follows.
unfoldable pub url : Server → ℕ → Text → Text
unfolding print_number
url s port rest = codes "http://" ++ (s.cfg.listen.ip ++ (codes ":" ++ (print_number port ++ rest)))

unfoldable pub image_url : Server → Text
unfolding url
image_url s = url s s.cfg.listen.http_port (codes "/images/" ++ s.image_name)

-- What the boot script's template is given.
pub record BootData : Type 0 where
  pub kernel_url : Text
  pub initramfs_url : Text
  pub ironic_url : Text
  pub mac : Text

-- A response: a file of this path, or a text.
pub data Response : Type 0 where
  not_found : Response
  boot_script : BootData → Response
  file : Text → Response
  index : Text → Response

unfoldable pub handle_boot_ipxe : Text → Server → Response
unfolding url
handle_boot_ipxe mac s = boot_script (record {
  kernel_url = url s s.cfg.listen.http_port (codes "/ipa.kernel");
  initramfs_url = url s s.cfg.listen.http_port (codes "/ipa.initramfs");
  ironic_url = url s s.cfg.listen.ironic_port [];
  mac = mac;
})

unfoldable pub is_refused : Text → Bool
unfolding is_empty contains has_byte
is_refused requested =
    is_empty requested
    || contains (codes "..") requested
    || has_byte b'/' requested
    || has_byte 0 requested

unfoldable pub handle_image : Text → Server → Response
unfolding trim_prefix is_refused text_beq
handle_image path s =
    let requested = trim_prefix (codes "/images/") path in
    if is_refused requested
    then not_found
    else if not (text_beq requested s.image_name)
    then not_found
    else file s.cfg.deploy.image

unfoldable pub handle_index : Text → Server → Response
unfolding text_beq
handle_index path s =
    if not (text_beq path (codes "/"))
    then not_found
    else index (
        codes "autopxe\n  /boot.ipxe\n  /ipa.kernel\n  /ipa.initramfs\n  /images/"
        ++ s.image_name
        ++ codes "\n")

-- The handlers as `Run` registers them, by the path and the parameter `mac` of the query.
unfoldable pub respond : Text → Text → Server → Response
unfolding handle_boot_ipxe handle_image handle_index text_beq has_prefix
respond path mac s =
    if text_beq path (codes "/boot.ipxe")
    then handle_boot_ipxe mac s
    else if text_beq path (codes "/ipa.kernel")
    then file s.cfg.ipa.kernel
    else if text_beq path (codes "/ipa.initramfs")
    then file s.cfg.ipa.initramfs
    else if has_prefix (codes "/images/") path
    then handle_image path s
    else handle_index path s
