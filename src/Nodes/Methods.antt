-- ===== src/Nodes/Methods.antt =====
-- daemon/src/methodOptimizers: the way in which a request is sent to another node, or a file is downloaded
-- from it. The health of a way, which is reported, is not looked at.
use kachery_p2p.Base.{ℕ, Bool, false, ◌&&◌, ◌||◌, Option, none, some, leb, if◌then◌else◌, string_eq}
use kachery_p2p.Base.Maps
use kachery_p2p.Nodes.{
  RemoteNode, is_there, get_remote_node_http_address, get_udp_address_for_remote_node,
}
use kachery_p2p.Nodes.Routes.{
  Node, message_proxy, data_proxy, get_remote_node_proxy_node, is_authorized_to_communicate,
}

pub data SendRequestMethod : Type 0 where
  default http http_proxy udp websocket prefer_udp prefer_http udp_fallback : SendRequestMethod

-- `availableMethods`; false for what is not a way of its own.
unfoldable pub is_available : Node → RemoteNode → SendRequestMethod → Bool
is_available node n http = is_there (get_remote_node_http_address n)
is_available node n http_proxy = is_there (get_remote_node_proxy_node message_proxy node n)
is_available node n udp =
    node.has_public_udp_socket_server && is_there (get_udp_address_for_remote_node n)
is_available node n websocket =
    Maps.has n.remote_node_id node.proxy_connections_to_clients
    || Maps.has n.remote_node_id node.proxy_connections_to_servers
is_available node n _ = false

-- `MethodHealth.health` gives 0, whatever was reported.
abbrev pub health : SendRequestMethod → ℕ
health method = 0

unfoldable pub determine_preferring_http : Node → RemoteNode → Option SendRequestMethod
determine_preferring_http node n =
    if is_available node n http
    then some http
    else if is_available node n websocket
    then some websocket
    else if is_available node n udp && is_available node n http_proxy
    then (if leb (health http_proxy) (health udp) then some udp else some http_proxy)
    else if is_available node n udp
    then some udp
    else if is_available node n http_proxy
    then some http_proxy
    else none

unfoldable pub determine_send_request_method :
    Node → RemoteNode → SendRequestMethod → Option SendRequestMethod
determine_send_request_method node n udp_fallback =
    if is_available node n http
    then some http
    else if is_available node n websocket
    then some websocket
    else if is_available node n http_proxy
    then some http_proxy
    else none
determine_send_request_method node n default = determine_preferring_http node n
determine_send_request_method node n prefer_http = determine_preferring_http node n
determine_send_request_method node n prefer_udp =
    if is_available node n udp then some udp else determine_preferring_http node n
determine_send_request_method node n method =
    if is_available node n method then some method else none

unfoldable pub can_send_request : Node → RemoteNode → SendRequestMethod → Bool
can_send_request node n method =
    is_authorized_to_communicate node n && is_there (determine_send_request_method node n method)

pub data DownloadFileDataMethod : Type 0 where
  by_default by_udp by_http by_http_proxy : DownloadFileDataMethod

unfoldable pub can_download : Node → RemoteNode → DownloadFileDataMethod → Bool
can_download node n by_udp =
    node.has_public_udp_socket_server && is_there (get_udp_address_for_remote_node n)
can_download node n by_http = is_there (get_remote_node_http_address n)
can_download node n by_http_proxy = is_there (get_remote_node_proxy_node data_proxy node n)
can_download node n by_default = false

unfoldable pub determine_download_file_data_method :
    Node → RemoteNode → DownloadFileDataMethod → Option DownloadFileDataMethod
determine_download_file_data_method node n by_default =
    if can_download node n by_http
    then some by_http
    else if can_download node n by_udp
    then some by_udp
    else if can_download node n by_http_proxy
    then some by_http_proxy
    else none
determine_download_file_data_method node n method =
    if can_download node n method then some method else none

unfoldable pub can_send_data : Node → RemoteNode → DownloadFileDataMethod → Bool
can_send_data node n method =
    is_authorized_to_communicate node n
    && is_there (determine_download_file_data_method node n method)
