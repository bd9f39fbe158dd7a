-- ===== src/Tests.antt =====
-- Runs of the model, and instances of the parameters.
mod SortedMap
mod KeyDataCodec
mod Storage
mod ManagerRuns
mod FramingRuns
mod KeySignRuns
mod KeyGenRuns
mod TssLib
mod PartyRuns
mod SigningRuns
mod ValidatorRuns
mod LifecycleRuns
mod SignatureRuns
mod EveryoneRuns
mod NodeRuns
mod StartupRuns
mod TogetherRuns
mod SuccessRuns
mod ExchangeRuns
mod ServerRuns
mod CeremonyRuns
