-- ===== src/Ironic.antt =====
-- internal/ironic: the description of the image that a node gets, and the deploy driver.
pub mod Deploy
pub mod Api
pub mod Client
pub mod Gate
mod Tests
use auto_pxe.Prelude.{
  ℕ, Bool, Option, none, some, List, [], ◌∷◌, ◌++◌, ltb, if◌then◌else◌, Text, codes, is_empty, take,
  length, insert, text_eq, not, ◌&&◌,
}
use auto_pxe.Config

-- `Server`, with what it reads of the configuration.
pub record Server : Type 0 where
  pub deploy : Config.Deploy
  pub heartbeat_timeout : ℕ
  pub hostnames : List (Text × Text)
  pub image_url : Text
  pub image_hash : Text

-- The loop of `New`: the hostname of a binding under its MAC.
unfoldable pub named_hosts : List Config.Static → List (Text × Text) → List (Text × Text)
unfolding is_empty insert
named_hosts [] out = out
named_hosts (s ∷ ss) out =
    named_hosts ss (
      if not (is_empty s.mac) && not (is_empty s.hostname)
      then insert s.mac s.hostname out
      else out)

-- `New`
unfoldable pub new_server : Config.Config → Text → Text → Server
unfolding named_hosts
new_server cfg image_url image_hash = record {
  deploy = cfg.deploy;
  heartbeat_timeout = cfg.ironic.heartbeat_timeout;
  hostnames = named_hosts cfg.dhcp.static [];
  image_url = image_url;
  image_hash = image_hash;
}

-- The keys of `instanceInfo` that depend on the node or on the configuration.
pub record InstanceInfo : Type 0 where
  pub id : Text
  pub urls : List Text
  pub image_type : Text
  pub disk_format : Text
  pub root_mb : ℕ
  pub node_uuid : Text
  pub os_hash_algo : Option Text
  pub os_hash_value : Option Text

-- `instanceInfo`. `none` is a panic: the UUID is shorter than its first eight bytes.
unfoldable pub instance_info : Server → Text → Option InstanceInfo
unfolding is_empty
instance_info s node_uuid =
    if ltb (length node_uuid) 8
    then none
    else some (record {
      id = codes "img-" ++ take 8 node_uuid;
      urls = s.image_url ∷ [];
      image_type = s.deploy.image_type;
      disk_format = s.deploy.disk_format;
      root_mb = s.deploy.root_mb;
      node_uuid = node_uuid;
      os_hash_algo = if is_empty s.image_hash then none else some (codes "sha256");
      os_hash_value = if is_empty s.image_hash then none else some s.image_hash;
    })
