-- ===== src/Lib.antt =====
-- The head-end system for meters in HES/: what it does with the packets that gateways send and with
-- the commands that a broker sends.
--
-- A gateway connects and names itself; its client is registered for it (Registry). The bytes that
-- come are taken apart into packets (Framing): of meters behind the gateway, unasked (Push) or as
-- pages on request (Pull). A packet has a header (Packet), a checksum (Checksum) and records, read
-- one by one into a map (DlmsRecords), each with a value that the parser of DLMS types reads
-- (Parser). Pages are collected for each node, and what is complete is handed to the database with
-- a cycle of the day (Cycle); values are taken out of the maps by their types (Records). Four
-- cycles of every hour the head-end starts its own activity (Schedule). A broker sends texts of
-- commands; each is checked and queued, or refused (Mqtt). A firmware update sends an image in
-- sectors and subpages, with retries (FirmwareUpdate).
--
-- What is missing of a gateway's nodes is pulled in stages (Nodes): each node is asked for its pages
-- and given its commands over its primary path and then over the alternate ones, which change
-- places with it (Paths); each request goes over the link to the gateway, with retries and with a
-- check of where an answer comes from (Link).
--
-- What becomes of a packet that passed the checks is told by the state in which the client waits for
-- it (Engine): it is pushed data, an answer to a command of the pull, a page for a handler of Pull, or
-- the answer to a request on demand. Such a request is sent and repeated until an answer ends it, page
-- for page, and the values of its answers are kept in profiles (Ondemand).
--
-- Files, and the code that they are about:
--   Prelude.antt, Prelude/: shared names; tests, lists, byte strings, signed integers and maps.
--   Number.antt: `std::stoi`, as HES/src/mqtt.cpp and HES/src/pull.cpp call it.
--   Hex.antt: addresses and hex text, from HES/src/utility.cpp, HES/src/pull.cpp (`mac_from_hex`,
--     `mac_to_hex`, `extract_path`) and HES/src/mqtt.cpp (`hex_to_bytes`).
--   Split.antt: `explode` of HES/src/String_functions.cpp and `Client::split` of HES/src/client.cpp.
--   Checksum.antt: `calculate_checksum` of HES/src/push.cpp and HES/src/pull.cpp.
--   DataType.antt, Records.antt: `DLMSDataType`, `DLMSValueStruct` and `DlmsValueExtractor` of
--     HES/inc/helper.h. The union is its eight bytes as one number; `double` is a parameter with the
--     laws of 0 and 1, since the language has no floating point.
--   Parser.antt: `DLMSParser::parseByType` of HES/inc/push.h.
--   Packet.antt: the packet header of HES/inc/push.h and `to_mac_array`.
--   DlmsRecords.antt: `parseDLMSRecords` and `parseBlockLoadDLMSRecords` of HES/src/push.cpp.
--   Framing.antt: the loop of `Client::client_received_data`, HES/src/client.cpp, that takes a received
--     block apart into packets.
--   Cycle.antt: `calculate_cycle_id` and `calculate_cycle_id_for_block_load` of HES/src/database.cpp.
--   Push.antt, Push/: `PushData` of HES/src/push.cpp. The six handlers have one text, with a record
--     `Profile` for what differs; calls of the database are a list of what it is told.
--   Pull.antt: the page handlers of `PullData`, HES/src/pull.cpp, in the same way.
--   Mqtt/: the queues, `Validate_command` and `validate_request_ids` of HES/src/mqtt.cpp. The object
--     and its argument `client` are the same one, as in every call.
--   Registry.antt: `Server::g_clients`, `register_client`, `unregister_client` of HES/src/client.cpp.
--   Schedule.antt: the schedule of the hourly cycles of HES/src/client.cpp.
--   FirmwareUpdate.antt, FirmwareUpdate/: of HES/src/fuota.cpp the sizes of a transfer
--     (`get_max_payload_size` and those around it) and the retry context (`decide_timeout_action`, and
--     what `prepare_alternate_route_retry` and `command_response_timeout_at_fuota` do to it); the timer of
--     a response (Timer), which is part of `poll_timeout_handler` in HES/src/client.cpp.
--   Link.antt, Link/: of HES/src/client.cpp the write of a packet (`write_to_client_vector`,
--     `get_destination_address`), the requests for a profile's pages (`frame_dlms_..._command_packet`),
--     the checks of what comes (`is_valid_packet`, `validate_source_address`,
--     `validate_received_data`), the kind of a packet (`processPacketType`), and a command with its
--     retries (`frame_pmesh_command_packet`, `transmit_command_and_validate_response`,
--     `transmit_command_on_path_pmesh`). What the calls of `send` and `recv` bring is a list in the
--     state, and the answer of `client_process_data` stands with each packet that comes, as does the
--     memory that its checks read. A function that frames a page is fixed for a pull.
--   Paths.antt, Paths/: the paths of a node: `attempt_dlms_reconnect_all_paths` (Reconnect),
--     `pull_profile_pages_on_path` and `try_paths_for_profile_pull` (Pages), `check_fuota_status`,
--     `fuota_disable_for_a_node` and `pull_internal_firmware_version_for_a_node` (Commands). A
--     reference into `alternate_paths` knows the memory that it points into, and its use after that
--     memory was freed is `none`.
--   Nodes.antt, Nodes/: `pull_missing_info_for_all_nodes` with its stages, and the missing cycles of the
--     instantaneous profile (`pull_missing_instantaneous_for_a_node`). What `ODM_Flag` shows is a list,
--     the database is what it is told, and the stage of the scalar profile is a parameter.
--   Ondemand/: of HES/src/client.cpp the requests on demand: `recalculate_dlms_checksum` and
--     `handle_next_page` (Frame, over the writes of Buffer), `Process_ODM_request` with
--     `write_to_client`, `resend_packet`, `handle_success` and `handle_connection_failed` (Request),
--     `log_dlms_data_type` and `extract_dlms_value` (Values), `parse_nameplate_profile` and the four
--     parsers with the same text (Profiles), `parse_Events_profile` (Events) and
--     `handle_single_obis_read` (SingleObis). A map of a profile is a list of what was put under each
--     index. The answers that come are a list, and a C++ exit of the loop is the value `stop`.
--   Engine.antt, Engine/: `client_process_data` of HES/src/client.cpp: its switch over the states of a pull
--     (Engine), which goes on to the rest (Engine.Answer) where it breaks.
--   Tests/: runs on concrete inputs.
--
-- Reads behind the end of memory are `none`, and so are exceptions that nothing catches. The time
-- is an argument. Logging is left out, and a lock makes an operation one step. Loops over bytes
-- have as fuel one round for each byte and one more, as every round takes a byte at least:
-- `records_loop`, `explode_loop`, `split_loop`. The loop of a transmission, which does not count every
-- round, recurs on what comes, and on its attempts when nothing comes any more; the loop of a pull
-- has the 16 rounds of the source. So a run is over what comes in finitely many packets and then
-- silence: that a gateway which sends without end is left is not claimed. The loop of a request on
-- demand has three turns for each answer and three more, and the rounds of its reconnection are those
-- that the retries leave. The order in which a set of ids is walked is a parameter. A count of packets
-- is a number without bound, where the source has an `int`.
--
-- Not modelled: sockets, threads and poll; the MySQL and mosquitto calls; the rest of the client of
-- HES/src/client.cpp, among it the queue of the on-demand requests and the packets built for them, what
-- is stored of their answers, the scalar profiles, the older transmission over a plain buffer and the
-- profile data that the reception fills while a node is pulled; `localtime` and `strftime`, which are a
-- parameter of Ondemand.Values; the transfer itself in HES/src/fuota.cpp; the SQL of
-- HES/src/database.cpp; the build with detailed parsing of events; HES/inc/nlohmann, which is
-- another project's.
pub mod Prelude
pub mod Number
pub mod Hex
pub mod Checksum
pub mod Split
pub mod DataType
pub mod Records
pub mod Parser
pub mod Packet
pub mod DlmsRecords
pub mod Cycle
pub mod Push
pub mod Pull
pub mod Mqtt
pub mod Schedule
pub mod Registry
pub mod Tests
pub mod Framing
pub mod FirmwareUpdate
pub mod Link
pub mod Paths
pub mod Nodes
pub mod Ondemand
pub mod Engine
