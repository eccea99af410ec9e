-- ===== src/Controller.antt =====
-- The reconciler, internal/controller/transfergw_controller.go: Apply writes and prunes the
-- Gateway API objects, Convert is the loop over the Ingresses, Check the health check, Status what
-- a reconcile records, Reconcile the whole.
pub mod Apply
pub mod Convert
pub mod Check
pub mod Status
pub mod Reconcile
pub mod Traffic
pub mod Counting
pub mod Pruning
pub mod Sharing
pub mod Settling
pub mod Storing
pub mod Trajectory
use transfergw.Base.{String, Option, List}
use transfergw.Base.Dict.{Dict}
use transfergw.Translator.{Translator, Url}
use transfergw.Canary.{Order}
use transfergw.Overlap.{Groups}

-- The engine's translators, net/url's parser, and the orders in which ranges over the two maps of
-- signatures visit them.
pub record Runtime : Type 0 where
  pub translators : Dict Translator
  pub parse_url : String → Option Url
  pub canary_order : Order
  pub overlap_order : Groups → Groups
