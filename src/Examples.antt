-- ===== src/Examples.antt =====
-- A small world to run the operator in: natural numbers for float64, a clock for the state, and
-- an API server with one migration and one Ingress. The children apply the theorems to it.
mod World
mod Rollouts
mod Routes
mod Checks
mod Reconciles
mod Clients
mod Previews
mod Store
mod Annotations
