-- ===== src/Tests.antt =====
-- Tests of the definitions on concrete inputs, and the theorems applied to them.
mod Crypto
mod Slugs
mod Rewrap
mod Repo
mod Mirror
mod Service
mod Auth
mod BoxRepo
mod Schema
mod Sweep
mod FileDrop
mod Broker
mod Poll
