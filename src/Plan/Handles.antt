-- ===== src/Plan/Handles.antt =====
-- testrange/handles.py: the typed handles of registered nodes, and the names of their nodes in the graph.
use test_range.Prelude.{String, [], ◌∷◌, Result, ok, ◌>>◌, raise_if, ◌==◌, join}
use test_range.Errors.{Error, value_error}
use test_range.Networks.Machine.{NetworkHandle}

-- A handle is a name; a network's also carries its switch.
pub data Handle : Type 0 where
  pool switch vm : String → Handle
  network : NetworkHandle → Handle

-- f"{kind}:{name}"
unfoldable pub pool_node : String → String
unfolding join
pool_node name = join "pool:" name

unfoldable pub network_node : String → String
unfolding join
network_node name = join "network:" name

unfoldable pub sidecar_node : String → String
unfolding join
sidecar_node name = join "sidecar:" name

unfoldable pub vm_node : String → String
unfolding join
vm_node name = join "vm:" name

-- Handle.node_name
unfoldable pub node_name : Handle → String
unfolding pool_node network_node vm_node
node_name (pool name) = pool_node name
node_name (switch name) = network_node name
node_name (network n) = network_node n.switch
node_name (vm name) = vm_node name

-- PoolHandle(name), SwitchHandle(name) and VMHandle(name, ...): the name is not empty.
unfoldable pub make_handle : (String → Handle) → String → Result Error Handle
make_handle kind name =
    raise_if (name == "") (record { class = value_error; about = [] }) >> ok (kind name)

unfoldable pub make_network_handle : String → String → Result Error NetworkHandle
make_network_handle name owner =
    raise_if (name == "") (record { class = value_error; about = [] })
    >> raise_if (owner == "") (record { class = value_error; about = name ∷ [] })
    >> ok (record { name = name; switch = owner })
