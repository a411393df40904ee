-- ===== src/Ui/Routes.antt =====
-- rust/ground_station/src/ui/mod.rs, router: which handler answers which request, and the handlers
-- that answer a part of the state as it is. Paths that no route has fall to the static files.
use build_with_opus.Prelude.{List, Result, ok, err}
use build_with_opus.Ingest.Sinks.{HkSnapshot, EventEntry}
use build_with_opus.Ui.Time.{Seconds, ValidityError}
use build_with_opus.Ui.State.{
  LinkStateDto, Cop1Status, MFileStatus, CfdpStatus, TimeAuthority, UiState,
}
use build_with_opus.Ui.Links.{
  CfsRosLinkDto, RosGroundLinkDto, FleetDdsLinkDto, get_cfs_ros_link, get_ros_ground_link,
  get_fleet_dds_link,
}
use build_with_opus.Ui.Handlers.{get_rover, TcSubmitRequest, TcSubmitResponse, post_tc}

pub data Request : Type 0 where
  api_hk api_events api_cfdp api_mfile api_link api_cop1 api_time api_rover : Request
  api_link_cfs_ros api_link_ros_ground api_link_fleet_dds : Request
  api_tc : (req : TcSubmitRequest) → Request

module _ (seconds : Seconds) where
  pub data Response : Type 0 where
    snapshots : (hk : List HkSnapshot) → Response
    entries : (events : List EventEntry) → Response
    transactions : (cfdp : List (CfdpStatus seconds)) → Response
    transfers : (mfile : List MFileStatus) → Response
    link_state : (link : LinkStateDto) → Response
    cop1_status : (cop1 : Cop1Status) → Response
    time_authority : (time_auth : TimeAuthority seconds) → Response
    cfs_ros : (dto : CfsRosLinkDto) → Response
    ros_ground : (dto : RosGroundLinkDto seconds) → Response
    fleet_dds : (dto : FleetDdsLinkDto) → Response
    submitted : (response : TcSubmitResponse) → Response
    unprocessable_entity : (e : ValidityError seconds.F64) → Response

  abbrev tc_answer : Result (ValidityError seconds.F64) TcSubmitResponse → Response
  tc_answer (ok response) = submitted response
  tc_answer (err e) = unprocessable_entity e

  unfoldable pub serve : Request → UiState seconds → UiState seconds × Response
  serve api_hk s = (s, snapshots s.hk)
  serve api_events s = (s, entries s.events)
  serve api_cfdp s = (s, transactions s.cfdp)
  serve api_mfile s = (s, transfers s.mfile)
  serve api_link s = (s, link_state s.link)
  serve api_cop1 s = (s, cop1_status s.cop1)
  serve api_time s = (s, time_authority s.time_auth)
  serve api_rover s = (s, snapshots (get_rover s.hk))
  serve api_link_cfs_ros s = (s, cfs_ros (get_cfs_ros_link s.hk))
  serve api_link_ros_ground s = (s, ros_ground (get_ros_ground_link seconds s.hk))
  serve api_link_fleet_dds s = (s, fleet_dds (get_fleet_dds_link s.hk))
  serve (api_tc req) s = let posted = post_tc seconds req s in (posted.0, tc_answer posted.1)
